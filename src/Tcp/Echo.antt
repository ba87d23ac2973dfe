-- ===== src/Tcp/Echo.antt =====
-- The handler EchoSocket of components/tailscale/echo_socket.h.
use tailscale_iot.Base.{
  ℕ, suc, ◌≡◌, refl, ap, List, [], ◌∷◌, ◌++◌, Bytes, false, length, take, arith, All, Option, none,
  some, Option-cases, inl, inr, if◌then◌else◌, ◌==◌,
}
use tailscale_iot.Tcp.Connection.{Action, send, Handler}
use tailscale_iot.Tcp.Connection.Kept.{IsPatient}

-- `newline - data + 1`, where there is one.
unfoldable pub line_length : Bytes → Option ℕ
line_length [] = none
line_length (c ∷ bytes) =
    let rest : Option ℕ = elim (line_length bytes) [ none ↦ none | some n ↦ some (suc n) ] in
    if c == b'\n' then some 1 else rest

unfoldable pub echo_line : Bytes → ℕ × List Action
echo_line bytes = elim (line_length bytes) [
  | none ↦ (0, [])
  | some n ↦ (n, send (take n bytes) ∷ [])
]

unfoldable pub echo_rest : Bytes → List Bytes
echo_rest buffer = if length buffer == 0 then [] else buffer ∷ []

abbrev pub echo_socket : Handler
echo_socket = record { on_connect = []; on_data = echo_line; on_disconnect = echo_rest }

-- It never closes a connection.
pub echo_socket-IsPatient : IsPatient echo_socket
unfolding echo_line
echo_socket-IsPatient bytes = elim (Option-cases (line_length bytes)) [
  | inl e ↦ ground (arith, e)
  | inr (n, e) ↦ ground (arith, e)
]

line_length_found :
    (line rest : Bytes)
    → All (λ c. (c == b'\n') ≡ false) line
    → line_length (line ++ b'\n' ∷ rest) ≡ some (suc (length line))
unfolding line_length
line_length_found [] rest h = refl
line_length_found (c ∷ line) rest h = ground (arith, h.0, line_length_found line rest h.1)

take-line :
    (line rest : Bytes) → take (suc (length line)) (line ++ b'\n' ∷ rest) ≡ line ++ b'\n' ∷ []
take-line [] rest = refl
take-line (c ∷ line) rest = ap (λ (t : Bytes). c ∷ t) (take-line line rest)

-- It sends the first line of the buffer, its newline included, and consumes just that.
pub echo_line_first :
    (line rest : Bytes)
    → All (λ c. (c == b'\n') ≡ false) line
    → echo_line (line ++ b'\n' ∷ rest) ≡ (suc (length line), send (line ++ b'\n' ∷ []) ∷ [])
unfolding echo_line
echo_line_first line rest h = ground (arith, line_length_found line rest h, take-line line rest)
