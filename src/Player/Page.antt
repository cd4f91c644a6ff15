-- ===== src/Player/Page.antt =====
-- The page that a recipe is played in, and the actions of the player on it. The page is not ours: what
-- it answers is a function of the time, counted in awaits, so it may change as it likes at each one.
pub mod Log
pub mod Awaits
pub mod Scrapes
pub mod Closed
pub mod Cancels
use alex_claw.Prelude.{ℕ, suc, Bool, true, false, Option, none, some, List, [], ◌∷◌, ◌++◌}
use alex_claw.Text.{Text}
use alex_claw.Js.{Json, null}
use alex_claw.Player.Scripts.Grid.{Extract, Widget}
use alex_claw.Player.Scripts.Tables.{Document, ScrapedTable}

-- An exception: its type's name and its message.
pub record Error : Type 0 where
  pub type_name : Text
  pub message : Text

-- `page.goto`: a response with the value of the refusal header, no response, or an exception.
pub data Loaded : Type 0 where
  responded : Text → Loaded
  no_response : Loaded

-- What `_extract_grid` gets back from the page.
abbrev pub Grid : Type 0
Grid = Extract Json null

-- A table, with the `source` that the player gives it.
pub record Table : Type 0 where
  pub source : Text
  pub table : ScrapedTable

-- What is asked of the page, with the time of the request.
pub data Call : Type 0 where
  goes : Text → Call
  queries clicks evaluates : Text → Call
  presses types : Text → Call
  selects : Text → Text → Call
  sets_checked : Text → Bool → Call
  saves : Text → Call
  shoots : Text → (full_page : Bool) → Call
  sleeps : ℕ → Call
  exposes : Text → Call

pub record Page : Type 0 where
  -- whether this call at this time raises, and what: the message may quote the call
  pub raises : ℕ → Call → Option Error
  -- whether the task is cancelled at this await
  pub cancels : ℕ → Bool
  pub url : ℕ → Text
  pub loaded : ℕ → Loaded
  pub present : ℕ → Bool
  pub visible : ℕ → Bool
  pub tag : ℕ → Text
  -- the file name of a download that arrives before the timeout
  pub downloaded : ℕ → Option Text
  -- the grid and the document that a script finds
  pub widget : ℕ → Widget Json null
  pub document : ℕ → Document
  -- the URLs of the frames behind the main one
  pub frames : ℕ → List Text
  pub text : ℕ → Text
  -- the event loop's clock in milliseconds, and the local time as `strftime` prints it
  pub time : ℕ → ℕ
  pub stamp : ℕ → Text
  pub today : ℕ → Text
  pub yesterday : ℕ → Text

pub data Scraped : Type 0 where
  text_data : Text → Scraped
  grid_data : Text → Grid → Scraped
  table_data : Table → Scraped

pub record State : Type 0 where
  pub clock : ℕ
  pub log : List (ℕ × Call)
  pub downloads : List Text
  pub screenshots : List Text
  pub scraped : List Scraped

pub data Result (A : Type 0) : Type 0 where
  ok : A → Result A
  raised : Error → Result A
  cancelled : Result A

abbrev pub Action : Type 0 → Type 0
Action A = State → Result A × State

module _ {A : Type 0} where
  abbrev pub pure : A → Action A
  pure a s = (ok a, s)

  abbrev pub raise : Error → Action A
  raise e s = (raised e, s)

  abbrev pub gets : (State → A) → Action A
  gets f s = (ok (f s), s)

  -- `try: m except Exception: handler`; a `CancelledError` is no `Exception`.
  abbrev rescue : (Error → Action A) → Result A → Action A
  rescue handler (ok a) s = (ok a, s)
  rescue handler (raised e) s = handler e s
  rescue handler cancelled s = (cancelled, s)

  unfoldable pub catch : Action A → (Error → Action A) → Action A
  catch m handler s = let (r, s') = m s in rescue handler r s'

unfoldable pub modify : (State → State) → Action Unit
modify f s = (ok tt, f s)

module _ {A B : Type 0} where
  abbrev pub continue : Result A → (A → Action B) → Action B
  continue (ok a) f s = f a s
  continue (raised e) f s = (raised e, s)
  continue cancelled f s = (cancelled, s)

  infixl 5 ◌>>=◌
  unfoldable pub ◌>>=◌ : Action A → (A → Action B) → Action B
  ◌>>=◌ m f s = let (r, s') = m s in continue r f s'

module _ {B : Type 0} where
  infixl 5 ◌>>◌
  abbrev pub ◌>>◌ : Action Unit → Action B → Action B
  m >> n = m >>= λ _. n

module _ (page : Page) where
  unfoldable pub ending : Bool → Option Error → Result Unit
  ending true o = cancelled
  ending false none = ok tt
  ending false (some e) = raised e

  -- One await: the call is logged, time goes on, and it returns, raises or is cancelled.
  unfoldable pub perform : Call → Action Unit
  unfolding ending
  perform c s = (
    ending (page.cancels s.clock) (page.raises s.clock c),
    record s { clock = suc s.clock; log = s.log ++ (s.clock, c) ∷ [] },
  )

  -- An await that answers with what the page holds at that time.
  unfoldable pub ask : {A : Type 0} → Call → (ℕ → A) → Action A
  ask c answer = do t ← gets (λ s. s.clock); perform c; pure (answer t)
