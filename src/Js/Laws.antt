-- ===== src/Js/Laws.antt =====
-- JavaScript's split beside Python's.
use mathlib.Core.List.{reverse-cons}
use alex_claw.Prelude.{
  ◌≡◌, refl, ◌∙◌, Bool, true, false, ◌||◌, List, [], ◌∷◌, ◌++◌, reverse, any, arith,
}
use alex_claw.Text.{Text, is_blank, is_space, words_from, words}
use alex_claw.Js.{split_from, split_runs}

pub any-append {ℓ} :
    {A : Type ℓ} (p : A → Bool) (xs ys : List A) → any p (xs ++ ys) ≡ (any p xs || any p ys)
any-append p [] ys = refl
any-append p (x ∷ xs) ys = ground (arith, any-append p xs ys)

pub any-reverse {ℓ} : {A : Type ℓ} (p : A → Bool) (xs : List A) → any p (reverse xs) ≡ any p xs
any-reverse p [] = refl
any-reverse p (x ∷ xs) =
    rw reverse-cons (any-append p (reverse xs) (x ∷ []) ∙ ground (arith, any-reverse p xs))

-- A test of tokens that no token with a blank of Python's passes, nor an empty one.
module _ (f : Text → Bool) (no_space : (t : Text) → any is_space t ≡ true → f t ≡ false)
    (no_empty : f [] ≡ false) where
  dirty : (t : Text) → any is_space t ≡ true → f (reverse t) ≡ false
  dirty t h = no_space (reverse t) (any-reverse is_space t ∙ h)

  mutual
    unfolding split_from words_from

    found_gap :
        (s : Text) → any f (split_from is_blank true [] s) ≡ true → any f (words_from [] s) ≡ true
    found_gap [] h = ground (arith, no_empty)
    found_gap (x ∷ s) h =
        ground (arith, found_gap s, found_in (x ∷ []) s, found_dirty (x ∷ []) [] s)

    found_in :
        (cur s : Text)
        → any f (split_from is_blank false cur s) ≡ true
        → any f (words_from cur s) ≡ true
    found_in [] [] h = ground (arith, no_empty)
    found_in (y ∷ cur) [] h = h
    found_in [] (x ∷ s) h =
        ground (arith, no_empty, found_gap s, found_in (x ∷ []) s, found_dirty (x ∷ []) [] s)
    found_in (y ∷ cur) (x ∷ s) h =
        ground (arith, found_gap s, found_in (x ∷ y ∷ cur) s, found_dirty (x ∷ y ∷ cur) [] s)

    -- The part has a blank of Python's that is none of JavaScript's.
    found_dirty :
        (cur py s : Text)
        → any is_space cur ≡ true
        → any f (split_from is_blank false cur s) ≡ true
        → any f (words_from py s) ≡ true
    found_dirty cur py [] d h = ground (arith, dirty cur d)
    found_dirty cur [] (x ∷ s) d h = ground (
      arith,
      dirty cur d,
      found_gap s,
      found_dirty (x ∷ cur) [] s,
      found_dirty (x ∷ cur) (x ∷ []) s,
    )
    found_dirty cur (y ∷ py) (x ∷ s) d h = ground (
      arith,
      dirty cur d,
      found_gap s,
      found_dirty (x ∷ cur) [] s,
      found_dirty (x ∷ cur) (x ∷ y ∷ py) s,
    )

  -- A token that JavaScript finds is one of Python's words.
  pub any-split_runs : (s : Text) → any f (split_runs is_blank s) ≡ true → any f (words s) ≡ true
  unfolding split_runs words
  any-split_runs s h = found_in [] s h
