-- ===== src/Squad/Book/Plan.antt =====
-- The plan of a fill closes lots that are in the book, each at most once.
use mathlib.Core.List.{map}
use criptotrade.Base.Text.{text_le}
use criptotrade.Base.{
  ◌≡◌, refl, String, ◌==◌, eq_iff, false, none, some, List, [], ◌∷◌, arith, keep, All, Bool-cases,
  inl, inr,
}
use criptotrade.Base.Dict.{Dict, lookup}
use criptotrade.Base.Dict.Keys.{IsDict, IsDict-keep, cons_ne, Lists, Lists-keep}
use criptotrade.Base.Float.{Float, min}
use criptotrade.Squad.{Position}
use criptotrade.Squad.Book.{Match, insert_by_age, sort_by_age, eps}
use criptotrade.Squad.Book.Fill.{plan_matches, is_candidate}

module _ {F : Type 0} where
  -- The lots of a plan under their ids.
  abbrev pub lot_of : Match F → String × Position F
  lot_of m = (m.oid, m.lot)

  abbrev pub lots_of : List (Match F) → Dict (Position F)
  lots_of = map lot_of

  none-insert_by_age :
      (k : String) (c : String × Position F) (cs : Dict (Position F))
      → (c.0 == k) ≡ false
      → lookup k cs ≡ none
      → lookup k (insert_by_age c cs) ≡ none
  unfolding lookup insert_by_age
  none-insert_by_age k c [] n h = rw n refl
  none-insert_by_age k c (e ∷ cs) n h = elim (Bool-cases (text_le c.1.opened_at e.1.opened_at)) [
    | inl t ↦ rw (t, n) h
    | inr t ↦ rw t (ground (arith, none-insert_by_age k c cs n))
  ]

  IsDict-insert_by_age :
      (c : String × Position F) (cs : Dict (Position F))
      → lookup c.0 cs ≡ none
      → IsDict cs
      → IsDict (insert_by_age c cs)
  unfolding lookup insert_by_age
  IsDict-insert_by_age c [] n h = (refl, tt)
  IsDict-insert_by_age c (e ∷ cs) n h = elim (Bool-cases (text_le c.1.opened_at e.1.opened_at)) [
    | inl t ↦ rw t (n, h)
    | inr t ↦
        let (ne, rest) = cons_ne c.0 e.0 e.1 cs n in
        rw t (none-insert_by_age e.0 c cs ne h.0, IsDict-insert_by_age c cs rest h.1)
  ]

  All-insert_by_age :
      (P : String × Position F → Type 0) (c : String × Position F) (cs : Dict (Position F))
      → P c
      → All P cs
      → All P (insert_by_age c cs)
  unfolding insert_by_age
  All-insert_by_age P c [] p h = (p, tt)
  All-insert_by_age P c (e ∷ cs) p h = elim (Bool-cases (text_le c.1.opened_at e.1.opened_at)) [
    | inl t ↦ rw t (p, h)
    | inr t ↦ rw t (h.0, All-insert_by_age P c cs p h.1)
  ]

  none-sort_by_age :
      (k : String) (cs : Dict (Position F)) → lookup k cs ≡ none → lookup k (sort_by_age cs) ≡ none
  unfolding sort_by_age
  none-sort_by_age k [] h = h
  none-sort_by_age k (c ∷ cs) h =
      let (ne, rest) = cons_ne k c.0 c.1 cs h in
      none-insert_by_age k c (sort_by_age cs) (ground (arith, eq_iff k c.0, eq_iff c.0 k, ne))
        (none-sort_by_age k cs rest)

  IsDict-sort_by_age : (cs : Dict (Position F)) → IsDict cs → IsDict (sort_by_age cs)
  unfolding sort_by_age
  IsDict-sort_by_age [] h = h
  IsDict-sort_by_age (c ∷ cs) h =
      IsDict-insert_by_age c (sort_by_age cs) (none-sort_by_age c.0 cs h.0)
        (IsDict-sort_by_age cs h.1)

  pub All-sort_by_age :
      (P : String × Position F → Type 0) (cs : Dict (Position F))
      → All P cs
      → All P (sort_by_age cs)
  unfolding sort_by_age
  All-sort_by_age P [] h = h
  All-sort_by_age P (c ∷ cs) h =
      All-insert_by_age P c (sort_by_age cs) h.0 (All-sort_by_age P cs h.1)

module _ {F : Type 0} ⦃fl : Float F⦄ where
  none-plan_matches :
      (k : String) (cs : Dict (Position F)) (q : F)
      → lookup k cs ≡ none
      → lookup k (lots_of (plan_matches cs q).0) ≡ none
  unfolding lookup plan_matches
  none-plan_matches k [] q h = refl
  none-plan_matches k (c ∷ cs) q h = elim (Bool-cases (fl.le q eps)) [
    | inl e ↦ rw e refl
    | inr e ↦
        rw e (ground (arith, none-plan_matches k cs (fl.sub q (min q c.1.quantity)), eq_iff c.0 k))
  ]

  pub IsDict-plan_matches :
      (cs : Dict (Position F)) (q : F) → IsDict cs → IsDict (lots_of (plan_matches cs q).0)
  unfolding plan_matches
  IsDict-plan_matches [] q h = tt
  IsDict-plan_matches (c ∷ cs) q h = elim (Bool-cases (fl.le q eps)) [
    | inl e ↦ rw e tt
    | inr e ↦ rw e (none-plan_matches c.0 cs _ h.0, IsDict-plan_matches cs _ h.1)
  ]

  pub All-plan_matches :
      (P : String × Position F → Type 0) (cs : Dict (Position F)) (q : F)
      → All P cs
      → All P (lots_of (plan_matches cs q).0)
  unfolding plan_matches
  All-plan_matches P [] q h = tt
  All-plan_matches P (c ∷ cs) q h = elim (Bool-cases (fl.le q eps)) [
    | inl e ↦ rw e tt
    | inr e ↦ rw e (h.0, All-plan_matches P cs _ h.1)
  ]

  -- The plan of `match_or_open` on a book.
  abbrev pub plan_of : String → String → F → Dict (Position F) → List (Match F) × F
  plan_of symbol side quantity book =
      plan_matches (sort_by_age (keep (is_candidate symbol side) book)) quantity

  pub plan_of-Lists :
      (symbol side : String) (q : F) (book : Dict (Position F))
      → IsDict book
      → IsDict (lots_of (plan_of symbol side q book).0)
        × Lists book (lots_of (plan_of symbol side q book).0)
  plan_of-Lists symbol side q book h =
      let kept = keep (is_candidate symbol side) book in
      let Listed : String × Position F → Type 0 = λ e. lookup e.0 book ≡ some e.1 in
      (
        IsDict-plan_matches (sort_by_age kept) q
            (IsDict-sort_by_age kept (IsDict-keep (is_candidate symbol side) book h)),
        All-plan_matches Listed (sort_by_age kept) q
            (All-sort_by_age Listed kept (Lists-keep (is_candidate symbol side) book h)),
      )
