-- ===== src/Identity/Segments.antt =====
-- What the scanner of src/aurora_bot/contracts/identity.py's names accepts: segments joined by the
-- separator.
use aurora_bot.Prelude.{
  ℕ, ◌≡◌, ◌↔◌, refl, sym, ap, subst, String, Bool, true, false, List, [], ◌∷◌, ◌++◌, all, arith,
  codes, nat_beq, nat_beq_iff, Bool-cases, inl, inr,
}
use aurora_bot.Identity.Names.{Form, scan, namespace_form, path_form, is_namespace, is_path}

-- Segments joined by the separator, each of a leading character and further ones.
pub data Joined (form : Form) : List ℕ → Type 0 where
  single :
      (c : ℕ) (s : List ℕ) → form.leads c ≡ true → all form.continues s ≡ true → Joined form (c ∷ s)
  several :
      (c : ℕ) (s rest : List ℕ)
      → form.leads c ≡ true
      → all form.continues s ≡ true
      → Joined form rest
      → Joined form (c ∷ s ++ form.separator ∷ rest)

module _ (form : Form) where
  -- The rest of a segment: it ends the text, or the separator and more segments follow.
  data Rest : List ℕ → Type 0 where
    last : (s : List ℕ) → all form.continues s ≡ true → Rest s
    next :
        (s rest : List ℕ)
        → all form.continues s ≡ true
        → Joined form rest
        → Rest (s ++ form.separator ∷ rest)

  abbrev Read : Bool → List ℕ → Type 0
  Read false = Joined form
  Read true = Rest

  lead : (c : ℕ) (s : List ℕ) → form.leads c ≡ true → Rest s → Joined form (c ∷ s)
  lead c _ h (last s a) = single c s h a
  lead c _ h (next s rest a j) = several c s rest h a j

  more : (c : ℕ) (s : List ℕ) → form.continues c ≡ true → Rest s → Rest (c ∷ s)
  more c _ h (last s a) = last (c ∷ s) (ground arith)
  more c _ h (next s rest a j) = next (c ∷ s) rest (ground arith) j

  scan-Read : (inside : Bool) (s : List ℕ) → scan form inside s ≡ true → Read inside s
  unfolding scan
  scan-Read false [] h = absurd (cc)
  scan-Read true [] h = last [] refl
  scan-Read false (c ∷ s) h = lead c s (ground arith) (scan-Read true s (ground arith))
  scan-Read true (c ∷ s) h = elim (Bool-cases (nat_beq c form.separator)) [
    | inl t ↦
        subst (λ d. Rest (d ∷ s)) (sym ((nat_beq_iff c form.separator).0 t))
          (next [] s refl (scan-Read false s (ground arith)))
    | inr f ↦ more c s (ground arith) (scan-Read true s (ground arith))
  ]

  module _ (apart : form.continues form.separator ≡ false) where
    scan-continues : (s : List ℕ) → all form.continues s ≡ true → scan form true s ≡ true
    unfolding scan
    scan-continues [] h = refl
    scan-continues (c ∷ s) h =
        ground (arith, scan-continues s, nat_beq_iff c form.separator, ap form.continues)

    scan-separator :
        (s rest : List ℕ)
        → all form.continues s ≡ true
        → scan form false rest ≡ true
        → scan form true (s ++ form.separator ∷ rest) ≡ true
    unfolding scan
    scan-separator [] rest h r = ground arith
    scan-separator (c ∷ s) rest h r =
        ground (arith, scan-separator s rest, nat_beq_iff c form.separator, ap form.continues)

    Joined-scan : (s : List ℕ) → Joined form s → scan form false s ≡ true
    unfolding scan
    Joined-scan _ (single c s l a) = ground (arith, scan-continues s a)
    Joined-scan _ (several c s rest l a j) =
        ground (arith, scan-separator s rest a (Joined-scan rest j))

-- A text is a namespace exactly if it is segments joined by dots, each a lower case letter and then
-- lower case letters, digits, underscores and hyphens; it is a path exactly if it is segments joined
-- by slashes, each a letter, digit or underscore and then letters, digits, underscores, dots and
-- hyphens.
pub is_namespace-Joined :
    (value : String)
    → ((is_namespace value ≡ true) ↔ Joined namespace_form (codes value))
      × ((is_path value ≡ true) ↔ Joined path_form (codes value))
unfolding is_namespace is_path
is_namespace-Joined value = (
  (scan-Read namespace_form false (codes value), Joined-scan namespace_form refl (codes value)),
  (scan-Read path_form false (codes value), Joined-scan path_form refl (codes value)),
)
