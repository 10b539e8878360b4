-- ===== src/World/Advance.antt =====
-- What `WorldFrontier.advance` promises: it takes the given positions, never moves back, and says
-- so when it would.

use aurora_bot.Prelude.{
  ℕ, ◌≤◌, ◌<◌, String, ◌≡◌, refl, false, some, [], ◌∷◌, arith, eq_iff, string_eq, any, All,
  contains, Distinct, ok, err, is_blank, inl, inr, ==_cases,
}
use aurora_bot.Prelude.Dict
use aurora_bot.Prelude.Dict.{Dict}
use aurora_bot.World.Frontier.{
  moves_backwards, WorldFrontier, world_frontier, sequence, merge_positions, advance,
}

-- Every name is visible, as the constructor demands.
abbrev pub AllNamed : Dict String ℕ → Type 0
AllNamed d = any (λ entry. is_blank entry.0) d ≡ false

pub put-AllNamed :
    (d : Dict String ℕ) (k : String) (n : ℕ)
    → AllNamed d
    → is_blank k ≡ false
    → AllNamed (Dict.put d k n)
unfolding Dict.put
put-AllNamed [] k n h hk = ground arith
put-AllNamed ((j, w) ∷ d) k n h hk = ground (arith, put-AllNamed d k n)

-- The merged dictionary holds the given position where there is one, else the old one.
pub get_or-merge_positions :
    (m p : Dict String ℕ) {m' : Dict String ℕ} (s : String)
    → Distinct (Dict.keys p)
    → merge_positions m p ≡ ok m'
    → Dict.get_or m' s 0 ≡ Dict.get_or p s (Dict.get_or m s 0)
unfolding merge_positions
get_or-merge_positions m [] s d h = unfold Dict.get_or in ground arith
get_or-merge_positions m ((k, n) ∷ p) {m'} s d h = ground (
  arith,
  get_or-merge_positions (Dict.put m k n) p {m' = m'} s d.1,
  Dict.get_or-put m k s n 0,
  Dict.get_or-cons p k s n (Dict.get_or m s 0),
  Dict.get_or-absent p k n d.0,
  eq_iff k s,
)

-- No position is behind its old one: the merge goes through.
pub merge_positions_total :
    (m p : Dict String ℕ)
    → Distinct (Dict.keys p)
    → AllNamed m
    → AllNamed p
    → All (λ entry. Dict.get_or m entry.0 0 ≤ entry.1) p
    → (m' : Dict String ℕ) × (merge_positions m p ≡ ok m') × AllNamed m'
unfolding merge_positions
merge_positions_total m [] d hm hp h = (m, refl, hm)
merge_positions_total m ((k, n) ∷ p) d hm hp h =
    let (m', e, named) =
      merge_positions_total (Dict.put m k n) p d.1 (put-AllNamed m k n hm (ground arith))
        (ground arith) (still p d.0 h.1) in
    (m', ground arith, named)
  where
    still :
        (q : Dict String ℕ)
        → contains (Dict.keys q) k ≡ false
        → All (λ entry. Dict.get_or m entry.0 0 ≤ entry.1) q
        → All (λ entry. Dict.get_or (Dict.put m k n) entry.0 0 ≤ entry.1) q
    still [] c a = tt
    still ((j, w) ∷ q) c a = (
      ground (arith, Dict.get_or-put m k j n 0, eq_iff j k, eq_iff k j),
      still q (ground arith) a.1,
    )

merge_positions-back :
    (m p : Dict String ℕ) (s : String) (n : ℕ)
    → Distinct (Dict.keys p)
    → Dict.get p s ≡ some n
    → n < Dict.get_or m s 0
    → merge_positions m p ≡ err moves_backwards
unfolding merge_positions Dict.get
merge_positions-back m [] s n d g lt = ground arith
merge_positions-back m ((k, w) ∷ p) s n d g lt = elim (==_cases k s) [
  | inl (t, e) ↦ ground arith
  | inr (t, ne) ↦
      ground (arith, merge_positions-back (Dict.put m k w) p s n d.1, Dict.get_or-put m k s w 0)
]

-- A frontier whose scopes are named advances over named positions none of which is behind: the
-- result has the new position of each scope that is given and the old one of every other.
pub advance-sequence :
    (f : WorldFrontier) (p : Dict String ℕ)
    → Distinct (Dict.keys p)
    → AllNamed f.positions
    → AllNamed p
    → All (λ entry. sequence f entry.0 ≤ entry.1) p
    → (f' : WorldFrontier) × (advance f p ≡ ok f')
      × ((s : String) → sequence f' s ≡ Dict.get_or p s (sequence f s))
unfolding advance sequence world_frontier
advance-sequence f p d hf hp h =
    let (m', e, named) = merge_positions_total f.positions p d hf hp h in
    (record { positions = m' }, rw (e, named), λ s. get_or-merge_positions f.positions p s d e)

-- One scope whose given position is behind its observed one is enough for the refusal.
pub advance-moves_backwards :
    (f : WorldFrontier) (p : Dict String ℕ) (s : String) (n : ℕ)
    → Distinct (Dict.keys p)
    → Dict.get p s ≡ some n
    → n < sequence f s
    → advance f p ≡ err moves_backwards
unfolding advance sequence
advance-moves_backwards f p s n d g lt = rw (merge_positions-back f.positions p s n d g lt)
