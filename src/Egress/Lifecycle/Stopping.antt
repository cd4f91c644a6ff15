-- ===== src/Egress/Lifecycle/Stopping.antt =====
-- What `stop` leaves, and what it cancels.
use alex_claw.Prelude.{◌≡◌, ◌≢◌, Bool, true, false, List, [], arith}
use alex_claw.Text.{Text}
use alex_claw.Egress.Lifecycle.{
  serving, gathering, stopped, Proxy, new_proxy, start, accept, discard, cancel_tasks, stop,
  gathered, Step, starts, accepts, ends, stops, closed, returns, Reach, here, next,
}

-- Once `stop` is called nothing is accepted, and once it has returned nothing is in flight.
pub record IsSound (p : Proxy) : Type 0 where
  pub deaf : p.phase ≢ serving → p.listening ≡ false
  pub empty : p.phase ≡ stopped → p.tasks ≡ []

Step-IsSound : {waits : Bool} {p q : Proxy} → Step waits p q → IsSound p → IsSound q
unfolding start accept discard stop cancel_tasks gathered
Step-IsSound (starts p s) h = ground arith
Step-IsSound (accepts task p l) h = ground arith
Step-IsSound (ends task p) h = ground arith
Step-IsSound (stops p s) h = ground arith
Step-IsSound (closed p w e) h = ground arith
Step-IsSound (returns p g e) h = ground arith

-- However connections come, end and are cancelled around a call of `stop`: from its call on the
-- proxy does not listen, and when it has returned no connection is in flight.
pub Reach-IsSound :
    (waits : Bool) (allow : List Text) {p : Proxy} → Reach waits (new_proxy allow) p → IsSound p
unfolding new_proxy
Reach-IsSound waits allow here = ground arith
Reach-IsSound waits allow (next r st) = Step-IsSound st (Reach-IsSound waits allow r)

-- What holds of a started proxy when `wait_closed` waits for the connections.
record IsPatient (p : Proxy) : Type 0 where
  spared : p.cancelled ≡ []
  listens : p.phase ≡ serving → p.listening ≡ true
  empty : p.phase ≡ gathering → p.tasks ≡ []
  still_empty : p.phase ≡ stopped → p.tasks ≡ []
  deaf : p.phase ≢ serving → p.listening ≡ false
