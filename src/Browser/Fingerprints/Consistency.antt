-- ===== src/Browser/Fingerprints/Consistency.antt =====
-- Whether a fingerprint fits together.
use alex_claw.Prelude.{
  ℕ, zero, suc, ◌≡◌, ◌≢◌, refl, Bool, true, false, not, List, [], ◌∷◌, all, ◌==◌, ==_iff, arith,
}
use alex_claw.Text.{Text, text_eq, codes, has_text, partition}
use alex_claw.Browser.Fingerprints.{
  user_agents, locales, choice, pick, platform_of, Fingerprint, Draws, random_fingerprint,
}

-- The platform says the system that the user agent says, and the languages are the locale and its
-- language.
pub record IsConsistent (f : Fingerprint) : Type 0 where
  pub windows :
      has_text f.user_agent (codes "(Windows NT 10.0; Win64; x64)") ≡ (f.platform == codes "Win32")
  pub mac :
      has_text f.user_agent (codes "(Macintosh; Intel Mac OS X") ≡ (f.platform == codes "MacIntel")
  pub linux :
      has_text f.user_agent (codes "(X11; Linux x86_64)") ≡ (f.platform == codes "Linux x86_64")
  pub first_language : f.languages.0 ≡ f.locale
  pub second_language : f.languages.1 ≡ codes "en"

choice-all {ℓ} :
    {A : Type ℓ} (p : A → Bool) (x : A) (l : List A) (i : ℕ)
    → p x ≡ true
    → all p l ≡ true
    → p (choice x l i) ≡ true
unfolding choice
choice-all p x [] i h k = h
choice-all p x (y ∷ l) zero h k = h
choice-all p x (y ∷ l) (suc i) h k = choice-all p y l i (ground arith) (ground arith)

pick-all {ℓ} :
    {A : Type ℓ} (p : A → Bool) (d : A) (l : List A) (i : ℕ)
    → l ≢ []
    → all p l ≡ true
    → p (pick d l i) ≡ true
unfolding pick
pick-all p d [] i n h = absurd (n refl)
pick-all p d (x ∷ l) i n h = choice-all p x l i (ground arith) (ground arith)

abbrev agrees : Bool → Bool → Bool
agrees true b = b
agrees false b = not b

agrees_lem : (a b : Bool) → agrees a b ≡ true → a ≡ b
agrees_lem true b h = ground arith
agrees_lem false b h = ground arith

abbrev says : Text → Text → Text → Bool
says ua system platform = agrees (has_text ua system) (platform_of ua == platform)

windows_all :
    all (λ ua. says ua (codes "(Windows NT 10.0; Win64; x64)") (codes "Win32")) user_agents ≡ true
unfolding has_text platform_of text_eq
windows_all = refl

mac_all :
    all (λ ua. says ua (codes "(Macintosh; Intel Mac OS X") (codes "MacIntel")) user_agents ≡ true
unfolding has_text platform_of text_eq
mac_all = refl

linux_all :
    all (λ ua. says ua (codes "(X11; Linux x86_64)") (codes "Linux x86_64")) user_agents ≡ true
unfolding has_text platform_of text_eq
linux_all = refl

english_all : all (λ locale. (partition b'-' locale).before == codes "en") locales ≡ true
unfolding partition text_eq
english_all = refl

-- Whatever the source of chance says, the platform of a fingerprint is that of its user agent, and
-- its languages are its locale and "en".
pub random_fingerprint-IsConsistent : (d : Draws) → IsConsistent (random_fingerprint d)
unfolding random_fingerprint
random_fingerprint-IsConsistent d = record {
  windows = agrees_lem _ _ (
      pick-all (λ ua. says ua (codes "(Windows NT 10.0; Win64; x64)") (codes "Win32")) []
        user_agents d.user_agent (λ e. cc) windows_all);
  mac = agrees_lem _ _ (
      pick-all (λ ua. says ua (codes "(Macintosh; Intel Mac OS X") (codes "MacIntel")) []
        user_agents d.user_agent (λ e. cc) mac_all);
  linux = agrees_lem _ _ (
      pick-all (λ ua. says ua (codes "(X11; Linux x86_64)") (codes "Linux x86_64")) [] user_agents
        d.user_agent (λ e. cc) linux_all);
  first_language = refl;
  second_language = (==_iff _ _).0 (
      pick-all (λ l. (partition b'-' l).before == codes "en") [] locales d.locale (λ e. cc)
        english_all);
}
