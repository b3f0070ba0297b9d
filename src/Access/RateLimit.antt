-- ===== src/Access/RateLimit.antt =====
-- `InMemoryRateLimiter` of src/core/ratelimit.py, against a limiter that forgets nothing.
use mathlib.Core.Path.{subst}
use criptotrade.Base.{
  ℕ, leb, ◌≡◌, refl, sym, ap, ◌∙◌, String, eq_refl, Bool, true, false, not, Option, none, some,
  List, [], ◌∷◌, ◌++◌, arith, if◌then◌else◌, Bool-cases, inl, inr, keep, keep-append, every, All,
  length, ◌&&◌,
}
use criptotrade.Base.Dict.{Dict, lookup, insert, lookup-insert}
use criptotrade.Base.Float.{Float, IsOrdered}

and_both : (a b : Bool) → (a && b) ≡ true → (a ≡ true) × (b ≡ true)
and_both a b h = (ground arith, ground arith)

module _ {F : Type 0} ⦃fl : Float F⦄ (window : F) where
  abbrev pub bucket_of : Option (List F) → List F
  bucket_of none = []
  bucket_of (some b) = b

  -- Whether a hit is still in the window at a reading of the clock.
  abbrev pub is_live : F → F → Bool
  is_live now t = fl.lt (fl.sub now window) t

  -- `allow`
  unfoldable pub allow : F → String → ℕ → Dict (List F) → Bool × Dict (List F)
  allow now key limit buckets =
      let bucket = keep (is_live now) (bucket_of (lookup key buckets)) in
      if leb limit (length bucket)
      then (false, insert key bucket buckets)
      else (true, insert key (bucket ++ now ∷ []) buckets)

  -- The answers to hits on one key at these readings of the clock.
  abbrev pub answers : String → ℕ → List F → Dict (List F) → List Bool
  answers key limit [] buckets = []
  answers key limit (now ∷ nows) buckets =
      let (allowed, buckets') = allow now key limit buckets in
      allowed ∷ answers key limit nows buckets'

  -- The same with the whole history of the hits that were allowed: a hit is allowed if fewer than
  -- `limit` of them are in the window before it.
  abbrev pub answers_by_history : ℕ → List F → List F → List Bool
  answers_by_history limit [] history = []
  answers_by_history limit (now ∷ nows) history =
      let full = leb limit (length (keep (is_live now) history)) in
      not full ∷ answers_by_history limit nows (if full then history else history ++ now ∷ [])

  -- The window does not move back.
  abbrev pub is_clock : List F → Bool
  is_clock [] = true
  is_clock (m ∷ ms) = every (λ n. fl.le (fl.sub m window) (fl.sub n window)) ms && is_clock ms

  -- The bucket has what the history has in each window to come.
  abbrev Tracks : List F → List F → List F → Type 0
  Tracks bucket history nows = All (λ n. keep (is_live n) bucket ≡ keep (is_live n) history) nows

  keep-keep :
      (o : IsOrdered F) (m n : F) (ts : List F)
      → fl.le (fl.sub m window) (fl.sub n window) ≡ true
      → keep (is_live n) (keep (is_live m) ts) ≡ keep (is_live n) ts
  keep-keep o m n [] h = refl
  keep-keep o m n (t ∷ ts) h = elim (Bool-cases (is_live n t)) [
    | inl e ↦ rw (o.le-lt_trans _ _ t h e, e) (ap (List.◌∷◌ t) (keep-keep o m n ts h))
    | inr e ↦ elim (Bool-cases (is_live m t)) [
      | inl f ↦ rw (f, e) (keep-keep o m n ts h)
      | inr f ↦ rw (f, e) (keep-keep o m n ts h)
    ]
  ]

  Tracks-kept :
      (o : IsOrdered F) (m : F) (bucket history nows : List F)
      → every (λ n. fl.le (fl.sub m window) (fl.sub n window)) nows ≡ true
      → Tracks bucket history nows
      → Tracks (keep (is_live m) bucket) history nows
  Tracks-kept o m bucket history [] c h = tt
  Tracks-kept o m bucket history (n ∷ nows) c h =
      let (first, rest) = and_both (fl.le (fl.sub m window) (fl.sub n window)) _ c in
      (keep-keep o m n bucket first ∙ h.0, Tracks-kept o m bucket history nows rest h.1)

  Tracks-append :
      (m : F) (bucket history nows : List F)
      → Tracks bucket history nows
      → Tracks (bucket ++ m ∷ []) (history ++ m ∷ []) nows
  Tracks-append m bucket history [] h = tt
  Tracks-append m bucket history (n ∷ nows) h = (
    keep-append (is_live n) bucket (m ∷ [])
        ∙ (ap (λ ts. ts ++ keep (is_live n) (m ∷ [])) h.0
            ∙ sym (keep-append (is_live n) history (m ∷ []))),
    Tracks-append m bucket history nows h.1,
  )

  stored :
      (key : String) (b : List F) (buckets : Dict (List F))
      → bucket_of (lookup key (insert key b buckets)) ≡ b
  stored key b buckets = ap bucket_of (lookup-insert key key b buckets) ∙ rw (eq_refl key) refl

  answers_tracked :
      (o : IsOrdered F) (key : String) (limit : ℕ) (nows history : List F) (buckets : Dict (List F))
      → is_clock nows ≡ true
      → Tracks (bucket_of (lookup key buckets)) history nows
      → answers key limit nows buckets ≡ answers_by_history limit nows history
  unfolding allow
  answers_tracked o key limit [] history buckets c h = refl
  answers_tracked o key limit (now ∷ nows) history buckets c h =
      let (first, rest) =
        and_both (every (λ n. fl.le (fl.sub now window) (fl.sub n window)) nows) _ c in
      let bucket = bucket_of (lookup key buckets) in
      let live = keep (is_live now) bucket in
      let kept = Tracks-kept o now bucket history nows first h.1 in
      let same : leb limit (length (keep (is_live now) history)) ≡ leb limit (length live) =
        ap (λ ts. leb limit (length ts)) (sym h.0) in
      elim (Bool-cases (leb limit (length live))) [
        | inl f ↦
            rw (same, f)
              (ap (List.◌∷◌ false) (
                answers_tracked o key limit nows history (insert key live buckets) rest
                  (subst (λ b. Tracks b history nows) (sym (stored key live buckets)) kept)))
        | inr f ↦
            rw (same, f)
              (ap (List.◌∷◌ true) (
                answers_tracked o key limit nows (history ++ now ∷ [])
                  (insert key (live ++ now ∷ []) buckets) rest
                  (subst (λ b. Tracks b (history ++ now ∷ []) nows)
                    (sym (stored key (live ++ now ∷ []) buckets))
                    (Tracks-append now live history nows kept))))
      ]

  -- On a new key, at readings of the clock that do not move the window back: the limiter answers as
  -- if it kept the whole history, so a hit is allowed exactly if fewer than `limit` hits were allowed
  -- in the window before it.
  pub answers-by_history :
      (o : IsOrdered F) (key : String) (limit : ℕ) (nows : List F) (buckets : Dict (List F))
      → is_clock nows ≡ true
      → lookup key buckets ≡ none
      → answers key limit nows buckets ≡ answers_by_history limit nows []
  answers-by_history o key limit nows buckets c h =
      answers_tracked o key limit nows [] buckets c
        (subst (λ b. Tracks (bucket_of b) [] nows) (sym h) (nothing nows))
    where
      nothing : (ns : List F) → Tracks [] [] ns
      nothing [] = tt
      nothing (n ∷ ns) = (refl, nothing ns)
