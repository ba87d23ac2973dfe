-- ===== src/MapResponse/Extract/Sections.antt =====
-- Where a section ends.
use tailscale_iot.Base.{
  ℕ, suc, ◌≡◌, ◌≢◌, refl, ap, sym, ◌∙◌, [], ◌∷◌, ◌++◌, Bytes, arith, append_assoc,
}
use tailscale_iot.MapResponse.Extract.{section}

-- Text in which every bracket of the kind is closed.
pub data Nested (opening closing : ℕ) : Bytes → Type 0 where
  end : Nested opening closing []
  other :
      {c : ℕ} {text : Bytes}
      → c ≢ opening
      → c ≢ closing
      → Nested opening closing text
      → Nested opening closing (c ∷ text)
  group :
      {t inner text : Bytes}
      → t ≡ opening ∷ (inner ++ closing ∷ text)
      → Nested opening closing inner
      → Nested opening closing text
      → Nested opening closing t

section_open :
    (o k d : ℕ) (text : Bytes) → section o k (suc d) (o ∷ text) ≡ o ∷ section o k (suc (suc d)) text
unfolding section
section_open o k d text = ground arith

section_close :
    (o k d : ℕ) (text : Bytes) → o ≢ k → section o k (suc d) (k ∷ text) ≡ k ∷ section o k d text
unfolding section
section_close o k d text h = ground arith

section_end : (o k : ℕ) (text : Bytes) → section o k 0 text ≡ []
unfolding section
section_end o k text = refl

section-Nested_prefix :
    (o k d : ℕ) (text rest : Bytes)
    → o ≢ k
    → Nested o k text
    → section o k (suc d) (text ++ rest) ≡ text ++ section o k (suc d) rest
unfolding section
section-Nested_prefix o k d text rest h Nested.end = refl
section-Nested_prefix o k d _ rest h (Nested.other {c} {text} p q n) =
    ground (arith, section-Nested_prefix o k d text rest h n)
section-Nested_prefix o k d t rest h (Nested.group {inner} {text} e ni nt) =
    let whole : t ++ rest ≡ o ∷ (inner ++ k ∷ (text ++ rest)) =
      (ap (λ (u : Bytes). u ++ rest) e ∙ simp append_assoc) in
    let first = section-Nested_prefix o k (suc d) inner (k ∷ (text ++ rest)) h ni in
    let second = section-Nested_prefix o k d text rest h nt in
    let closed = section_close o k (suc d) (text ++ rest) h ∙ ap (◌∷◌ k) second in
    let out =
      section_open o k d (inner ++ k ∷ (text ++ rest))
      ∙ ap (◌∷◌ o) (first ∙ ap (λ (u : Bytes). inner ++ u) closed) in
    let back : o ∷ (inner ++ k ∷ (text ++ section o k (suc d) rest))
        ≡ t ++ section o k (suc d) rest =
      (sym (ap (λ (u : Bytes). u ++ section o k (suc d) rest) e ∙ simp append_assoc)) in
    ap (section o k (suc d)) whole ∙ out ∙ back

-- If the brackets of a section's text are nested, the loop stops exactly behind the bracket that
-- closes the section, whatever follows.
pub section-Nested :
    (opening closing : ℕ) (text rest : Bytes)
    → opening ≢ closing
    → Nested opening closing text
    → section opening closing 1 (text ++ closing ∷ rest) ≡ text ++ closing ∷ []
section-Nested opening closing text rest h n =
    section-Nested_prefix opening closing 0 text (closing ∷ rest) h n
    ∙ ap (λ (u : Bytes). text ++ u)
        (section_close opening closing 0 rest h
          ∙ ap (◌∷◌ closing) (section_end opening closing rest))
