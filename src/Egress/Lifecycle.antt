-- ===== src/Egress/Lifecycle.antt =====
-- `EgressProxy.__init__`, `start` and `stop`, and the set of tasks that `_handle` keeps.
pub mod Stopping
use alex_claw.Prelude.{
  ℕ, ◌≡◌, Bool, true, false, not, List, [], ◌∷◌, ◌++◌, eqb, keep, if◌then◌else◌,
}
use alex_claw.Text.{Text}

-- How far `stop` is: not called; in `wait_closed`; in `gather`; done.
pub data Phase : Type 0 where
  serving waiting gathering stopped : Phase

-- A connection is known by the number of its task. `cancelled` are those that `stop` has cancelled.
pub record Proxy : Type 0 where
  pub allow : List Text
  pub listening : Bool
  pub tasks : List ℕ
  pub cancelled : List ℕ
  pub phase : Phase

-- `EgressProxy.__init__`
unfoldable pub new_proxy : List Text → Proxy
new_proxy allow = record {
  allow = allow;
  listening = false;
  tasks = [];
  cancelled = [];
  phase = serving;
}

-- `start`
unfoldable pub start : Proxy → Proxy
start p = record p { listening = true }

-- `_handle` up to its first await.
unfoldable pub accept : ℕ → Proxy → Proxy
accept task p = record p { tasks = task ∷ p.tasks }

-- The `finally` clause of `_handle`.
pub discard : ℕ → Proxy → Proxy
discard task p = record p { tasks = keep (λ t. not (eqb t task)) p.tasks }

-- The loop of `stop` that cancels the tasks.
pub cancel_tasks : Proxy → Proxy
cancel_tasks p = record p { listening = false; cancelled = p.tasks; phase = gathering }

-- `stop` up to its first await: `close`, and the wait if there is a server.
unfoldable pub stop : Proxy → Proxy
stop p = if p.listening then record p { listening = false; phase = waiting } else cancel_tasks p

-- `gather` returns.
pub gathered : Proxy → Proxy
gathered p = record p { phase = stopped }

-- Whether `wait_closed` waits for the connections is asyncio's: it does from Python 3.12.1 on.
module _ (waits : Bool) where
  pub data Step : Proxy → Proxy → Type 0 where
    starts : (p : Proxy) → p.phase ≡ serving → Step p (start p)
    accepts : (task : ℕ) (p : Proxy) → p.listening ≡ true → Step p (accept task p)
    ends : (task : ℕ) (p : Proxy) → Step p (discard task p)
    stops : (p : Proxy) → p.phase ≡ serving → Step p (stop p)
    closed :
        (p : Proxy) → p.phase ≡ waiting → (waits ≡ true → p.tasks ≡ []) → Step p (cancel_tasks p)
    returns : (p : Proxy) → p.phase ≡ gathering → p.tasks ≡ [] → Step p (gathered p)

  pub data Reach (s : Proxy) : Proxy → Type 0 where
    here : Reach s s
    next : {t u : Proxy} → Reach s t → Step t u → Reach s u
