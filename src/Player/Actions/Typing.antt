-- ===== src/Player/Actions/Typing.antt =====
-- What is typed, and on which origin.
use alex_claw.Prelude.{
  ℕ, zero, suc, ◌≡◌, ◌≢◌, ◌⊎◌, ◌∙◌, ◌++◌, ◌&&◌, refl, ap, sym, leb, Bool, true, false, Option, none,
  some, All, ◌==◌, ==_iff, Bool-cases, inl, inr,
}
use alex_claw.Text.{Text, text_eq, codes, has_text, has_char, lower}
use alex_claw.Player.Page.{
  Loaded, responded, no_response, Page, Call, goes, queries, clicks, evaluates, presses, types,
  selects, sets_checked, sleeps, saves, shoots, State, Action, ok, raise, catch, perform, ask,
  ◌>>=◌,
}
use alex_claw.Player.Page.Log.{
  Logs, Logs-pure, Logs-raise, Logs-gets, Logs-if, Logs-catch, Logs-bind, Logs-perform, Logs-ask,
  Logs-pure_bind, perform_then,
}
use alex_claw.Player.Origin.{origin_of}
use alex_claw.Player.Actions.{
  failed, wait_for_ready, check_refused, navigate, same_origin, on_origin, find_element, element,
  resolve_date, format_date_value, type_into, fill, click_once, click_loop, click_within, click,
  select_into, select, check,
}

-- At this time the page is on the origin, or the fill is bound to none.
abbrev pub IsOn : Page → ℕ → Option Text → Type 0
IsOn page t none = Unit
IsOn page t (some o) = (x : Text) × (origin_of (page.url t) ≡ some x) × (origin_of o ≡ some x)

-- What a date stands for at this time: "today" and "yesterday" are the page's days, all else itself.
abbrev pub IsDay : Page → ℕ → Text → Text → Type 0
IsDay page t value day =
    (value ≡ codes "today" → day ≡ page.today t)
    × (value ≡ codes "yesterday" → day ≡ page.yesterday t)
    × (value ≢ codes "today" → value ≢ codes "yesterday" → day ≡ value)

-- The text that a date becomes in this field: its day at some time, as it is when it has a time or the
-- field is not named for one; else at the first minute, or the last one.
abbrev pub IsDate : Page → Text → Text → Text → Type 0
IsDate page field value v =
    (t : ℕ) × (day : Text) × IsDay page t value day
    × (((v ≡ day)
          × ((has_char day 32 && has_char day b':' ≡ true)
              ⊎ ((has_text (lower field) (codes "from") ≡ false)
                  × (has_text (lower field) (codes "to") ≡ false))))
        ⊎ ((v ≡ day ++ codes " 00:00")
            × (has_text (lower field) (codes "from") ≡ true)
            × (has_char day 32 && has_char day b':' ≡ false))
        ⊎ ((v ≡ day ++ codes " 23:59")
            × (has_text (lower field) (codes "from") ≡ false)
            × (has_text (lower field) (codes "to") ≡ true)
            × (has_char day 32 && has_char day b':' ≡ false)))

-- The text that a fill types.
abbrev pub IsFilled : Page → Text → Text → Bool → Text → Type 0
IsFilled page field value date v =
    (date ≡ false → v ≡ value) × (date ≡ true → IsDate page field value v)

-- A predicate that only speaks of what is typed, and of the files of screenshots.
abbrev pub IsWatched : (ℕ → Text → Type 0) → (Text → Type 0) → ℕ × Call → Type 0
IsWatched P R (t, types v) = P t v
IsWatched P R (t, shoots path full) = R path
IsWatched P R (t, _) = Unit

-- A predicate that only speaks of what is typed.
abbrev pub IsTyped : (ℕ → Text → Type 0) → ℕ × Call → Type 0
IsTyped P = IsWatched P (λ path. Unit)

-- A predicate that only speaks of the files of screenshots.
abbrev pub IsShot : (Text → Type 0) → ℕ × Call → Type 0
IsShot R = IsWatched (λ t v. Unit) R

module _ (page : Page) (P : ℕ → Text → Type 0) (R : Text → Type 0) where
  abbrev pub Quiet : {A : Type 0} → Action A → Type 0
  Quiet m = Logs (IsWatched P R) m

  pub Quiet-sleeps : (ms : ℕ) → Quiet (perform page (sleeps ms))
  Quiet-sleeps ms = Logs-perform page _ (λ t. tt)

  pub Quiet-clicks : (selector : Text) → Quiet (perform page (clicks selector))
  Quiet-clicks selector = Logs-perform page _ (λ t. tt)

  pub Quiet-queries : (selector : Text) → Quiet (perform page (queries selector))
  Quiet-queries selector = Logs-perform page _ (λ t. tt)

  pub Quiet-selects : (selector value : Text) → Quiet (perform page (selects selector value))
  Quiet-selects selector value = Logs-perform page _ (λ t. tt)

  pub Quiet-sets_checked :
      (selector : Text) (b : Bool) → Quiet (perform page (sets_checked selector b))
  Quiet-sets_checked selector b = Logs-perform page _ (λ t. tt)

  pub Quiet-presses : (key : Text) → Quiet (perform page (presses key))
  Quiet-presses key = Logs-perform page _ (λ t. tt)

  pub Quiet-saves : (path : Text) → Quiet (perform page (saves path))
  Quiet-saves path = Logs-perform page _ (λ t. tt)

  pub Quiet-shoots : (path : Text) (full : Bool) → R path → Quiet (perform page (shoots path full))
  Quiet-shoots path full h = Logs-perform page _ (λ t. h)

  pub Quiet-ask_queries :
      {A : Type 0} (selector : Text) (f : ℕ → A) → Quiet (ask page (queries selector) f)
  Quiet-ask_queries selector f = Logs-ask page _ f (λ t. tt)

  pub Quiet-ask_evaluates :
      {A : Type 0} (selector : Text) (f : ℕ → A) → Quiet (ask page (evaluates selector) f)
  Quiet-ask_evaluates selector f = Logs-ask page _ f (λ t. tt)

  pub Quiet-ask_goes : {A : Type 0} (url : Text) (f : ℕ → A) → Quiet (ask page (goes url) f)
  Quiet-ask_goes url f = Logs-ask page _ f (λ t. tt)

  pub ruleset quiet_rules = (
    Logs-pure, Logs-raise, Logs-gets, Logs-if, Logs-catch, Logs-bind, Quiet-sleeps, Quiet-clicks,
    Quiet-queries, Quiet-saves, Quiet-selects, Quiet-sets_checked, Quiet-presses, Quiet-ask_queries,
    Quiet-ask_evaluates, Quiet-ask_goes,
  )

  wait_for_ready-Quiet : (ms : ℕ) → Quiet (wait_for_ready page ms)
  unfolding wait_for_ready
  wait_for_ready-Quiet ms = search quiet_rules

  check_refused-Quiet : (url : Text) (l : Loaded) → Quiet (check_refused page url l)
  unfolding check_refused
  check_refused-Quiet url (responded header) = search quiet_rules
  check_refused-Quiet url no_response = search quiet_rules

  pub navigate-Quiet : (url : Text) → Quiet (navigate page url)
  unfolding navigate
  navigate-Quiet url = search (quiet_rules, wait_for_ready-Quiet, check_refused-Quiet)

  same_origin-Quiet : (a b : Option Text) (selector : Text) → Quiet (same_origin page a b selector)
  unfolding same_origin
  same_origin-Quiet (some a) (some b) selector = search quiet_rules
  same_origin-Quiet (some a) none selector = search quiet_rules
  same_origin-Quiet none b selector = search quiet_rules

  on_origin-Quiet : (selector : Text) (o : Option Text) → Quiet (on_origin page selector o)
  unfolding on_origin
  on_origin-Quiet selector none = search quiet_rules
  on_origin-Quiet selector (some o) = search (quiet_rules, same_origin-Quiet)

  find_element-Quiet :
      (fuel : ℕ) (selector : Text) (deadline : ℕ) → Quiet (find_element page fuel selector deadline)
  unfolding find_element
  find_element-Quiet zero selector deadline = search quiet_rules
  find_element-Quiet (suc fuel) selector deadline =
      Logs-bind _ _ (Quiet-ask_queries selector page.present) (λ found.
        Logs-if found _ _ (Logs-pure tt) (
          Logs-bind _ _ (Logs-gets _) (λ now.
            Logs-if (leb deadline now) _ _ (Logs-raise _)
              (Logs-bind _ _ (Quiet-sleeps 250) (λ _. find_element-Quiet fuel selector deadline)))))

  pub element-Quiet : (selector : Text) (ms : ℕ) → Quiet (element page selector ms)
  unfolding element
  element-Quiet selector ms = search (quiet_rules, find_element-Quiet)

  click_once-Quiet : (selector : Text) → Quiet (click_once page selector)
  unfolding click_once
  click_once-Quiet selector = search quiet_rules depth 8

  click_loop-Quiet : (n : ℕ) (selector shown : Text) → Quiet (click_loop page n selector shown)
  unfolding click_loop
  click_loop-Quiet zero selector shown = search quiet_rules
  click_loop-Quiet (suc n) selector shown =
      Logs-bind _ _ (Logs-catch _ _ (click_once-Quiet selector) (λ _. Logs-pure false)) (λ clicked.
        Logs-if clicked _ _ (Logs-pure tt)
          (Logs-bind _ _ (Quiet-sleeps 1000) (λ _. click_loop-Quiet n selector shown)))

  pub click_within-Quiet :
      (selector : Text) (ms : ℕ) (shown : Text) → Quiet (click_within page selector ms shown)
  unfolding click_within
  click_within-Quiet selector ms shown = click_loop-Quiet _ selector shown

  pub click-Quiet : (selector : Text) (ms : ℕ) → Quiet (click page selector ms)
  unfolding click
  click-Quiet selector ms = click_within-Quiet selector ms _

  select_into-Quiet : (selector value : Text) → Quiet (select_into page selector value)
  unfolding select_into
  select_into-Quiet selector value = search quiet_rules

  pub select-Quiet : (selector value : Text) (ms : ℕ) → Quiet (select page selector value ms)
  unfolding select
  select-Quiet selector value ms = search (quiet_rules, select_into-Quiet, element-Quiet)

  pub check-Quiet : (selector : Text) (b : Bool) (ms : ℕ) → Quiet (check page selector b ms)
  unfolding check
  check-Quiet selector b ms = search (quiet_rules, element-Quiet)

  -- `m` awaits nothing, and answers with a value of this kind.
  record Answers {A : Type 0} (Q : A → Type 0) (m : Action A) : Type 0 where
    answer : (s : State) → (a : A) × (m s ≡ (ok a, s)) × Q a

  Answers-then :
      {A B : Type 0} (Q : A → Type 0) (m : Action A) (f : A → Action B)
      → Answers Q m
      → ((a : A) → Q a → Quiet (f a))
      → Quiet (m >>= f)
  unfolding ◌>>=◌
  Answers-then Q m f h k = record {
    at = λ s g. let (a, e, q) = h.answer s in rw e ((k a q).at s g);
  }

  resolve_date-IsDay :
      (value : Text) → Answers (λ day. (t : ℕ) × IsDay page t value day) (resolve_date page value)
  unfolding resolve_date ◌>>=◌
  resolve_date-IsDay value = record {
    answer = λ s. elim (Bool-cases (value == codes "yesterday")) [
      | inl before ↦
          let same = (==_iff value (codes "yesterday")).0 before in
          rw before (
            page.yesterday s.clock,
            refl,
            (
              s.clock,
              (
                λ now. absurd (days_differ (sym now ∙ same)),
                λ _. refl,
                λ _ other. absurd (other same),
              ),
            ),
          )
      | inr later ↦ elim (Bool-cases (value == codes "today")) [
        | inl now ↦
            let same = (==_iff value (codes "today")).0 now in
            rw (later, now)
              (
                page.today s.clock,
                refl,
                (
                  s.clock,
                  (
                    λ _. refl,
                    λ e. absurd (days_differ (sym same ∙ e)),
                    λ other. absurd (other same),
                  ),
                ),
              )
        | inr other ↦
            rw (later, other)
              (
                value,
                refl,
                (
                  s.clock,
                  (
                    λ e. absurd (differ value (codes "today") other e),
                    λ e. absurd (differ value (codes "yesterday") later e),
                    λ _ _. refl,
                  ),
                ),
              )
      ]
    ];
  }
    where
      days_differ : codes "today" ≢ codes "yesterday"
      days_differ = cc

      differ : (a b : Text) → (a == b) ≡ false → a ≢ b
      differ a b e same = let yes = (==_iff a b).1 same in absurd (cc)

  format_date_value-IsDate :
      (value field : Text) → Answers (IsDate page field value) (format_date_value page value field)
  unfolding format_date_value ◌>>=◌
  format_date_value-IsDate value field = record {
    answer = λ s.
        let (day, e, (t, is)) = (resolve_date-IsDay value).answer s in
        rw e (elim (Bool-cases (has_char day 32 && has_char day b':')) [
          | inl timed ↦ rw timed (day, refl, (t, day, is, inl (refl, inl timed)))
          | inr bare ↦ elim (Bool-cases (has_text (lower field) (codes "from"))) [
            | inl first ↦
                rw (bare, first)
                  (day ++ codes " 00:00", refl, (t, day, is, inr (inl (refl, refl, bare))))
            | inr later ↦ elim (Bool-cases (has_text (lower field) (codes "to"))) [
              | inl last ↦
                  rw (bare, later, last)
                    (day ++ codes " 23:59", refl, (t, day, is, inr (inr (refl, refl, refl, bare))))
              | inr plain ↦
                  rw (bare, later, plain) (day, refl, (t, day, is, inl (refl, inr (refl, refl))))
            ]
          ]
        ]);
  }

  typing_at :
      (a b : Option Text) (selector value : Text) (rest : Action Unit) (s : State)
      → ((x : Text) → a ≡ some x → b ≡ some x → P s.clock value)
      → Quiet rest
      → All (IsWatched P R) s.log
      → All
          (IsWatched P R)
          ((same_origin page a b selector >>= λ _. (perform page (types value) >>= λ _. rest))
            s).1.log
  unfolding same_origin ◌>>=◌
  typing_at none b selector value rest s p q h = h
  typing_at (some x) none selector value rest s p q h = h
  typing_at (some x) (some y) selector value rest s p q h = elim (Bool-cases (x == y)) [
    | inl same ↦ rw same (
        perform_then (IsWatched P R) page (types value) rest s
          (p x refl (ap some (sym ((==_iff x y).0 same)))) h q)
    | inr other ↦ rw other h
  ]

  -- The check and the keystrokes stand at the same time: nothing is awaited between them.
  guarded_typing :
      (selector value : Text) (o : Option Text) (rest : Action Unit)
      → ((t : ℕ) → IsOn page t o → P t value)
      → Quiet rest
      → Quiet (on_origin page selector o >>= λ _. (perform page (types value) >>= λ _. rest))
  unfolding on_origin ◌>>=◌
  guarded_typing selector value none rest p q =
      Logs-bind _ _ (Logs-perform page (types value) (λ t. p t tt)) (λ _. q)
  guarded_typing selector value (some o) rest p q = record {
    at = λ s h.
        typing_at (origin_of (page.url s.clock)) (origin_of o) selector value rest s
          (λ x here bound. p s.clock (x, here, bound)) q h;
  }

  type_into-Quiet :
      (selector value : Text) (o : Option Text)
      → ((t : ℕ) → IsOn page t o → P t value)
      → Quiet (type_into page selector value o)
  unfolding type_into
  type_into-Quiet selector value o p = Logs-bind _ _ (Quiet-clicks selector) (λ _.
      Logs-bind _ _ (Quiet-sleeps 300) (λ _.
        Logs-bind _ _ (Quiet-presses _)
          (λ _. guarded_typing selector value o _ p (Quiet-sleeps 500))))

  -- What a fill types: its value, or what its date becomes.
  pub fill-Quiet :
      (selector value : Text) (date : Bool) (ms : ℕ) (o : Option Text)
      → ((t : ℕ) (v : Text) → IsFilled page selector value date v → IsOn page t o → P t v)
      → Quiet (fill page selector value date ms o)
  unfolding fill
  fill-Quiet selector value false ms o p = Logs-bind _ _ (on_origin-Quiet selector o) (λ _.
      Logs-pure_bind value _
        (typed_Quiet value (λ t on. p t value (λ e. refl, λ e. absurd (cc)) on)))
    where
      typed_Quiet :
          (v : Text)
          → ((t : ℕ) → IsOn page t o → P t v)
          → Quiet (
              element page selector ms >>= λ _.
              catch (type_into page selector v o) (λ e. raise (failed (codes "fill") selector e)))
      typed_Quiet v p =
          Logs-bind _ _ (element-Quiet selector ms)
            (λ _. Logs-catch _ _ (type_into-Quiet selector v o p) (λ e. Logs-raise _))
  fill-Quiet selector value true ms o p = Logs-bind _ _ (on_origin-Quiet selector o) (λ _.
      Answers-then (IsDate page selector value) _ _ (format_date_value-IsDate value selector)
        (λ typed is. Logs-bind _ _ (element-Quiet selector ms) (λ _.
          Logs-catch _ _
            (type_into-Quiet selector typed o (λ t on. p t typed (λ e. absurd (cc), λ e. is) on))
            (λ e. Logs-raise _))))
