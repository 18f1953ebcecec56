-- ===== src/Base/Timer.antt =====
-- `atimer` of czrpc/base/atimer.hpp. A function that has been bound is known by a number. The waits
-- of the `deadline_timer` that have been started and whose handlers have not run stand in `waits`.
pub mod Waits
use czrpc.Prelude.{
  ℕ, Bytes, Bool, true, false, not, ◌||◌, List, [], ◌∷◌, ◌++◌, map, Option, none, some, ◌==◌,
  if◌then◌else◌,
}

-- A wait can be cancelled until it is over. From then on its handler stands in the queue of the
-- io_service, and is called without an error.
pub data Wait : Type 0 where
  armed : Wait
  cancelled : Wait
  over : Wait

pub record Timer : Type 0 where
  pub ios_stopped : Bool
  pub has_thread : Bool
  pub func_vec : List ℕ
  pub is_single_shot : Bool
  pub duration : ℕ
  pub waits : List Wait

-- The members as they are initialised.
abbrev pub new_timer : Timer
new_timer = record {
  ios_stopped = false;
  has_thread = false;
  func_vec = [];
  is_single_shot = false;
  duration = 0;
  waits = [];
}

unfoldable pub cancel_wait : Wait → Wait
cancel_wait armed = cancelled
cancel_wait w = w

unfoldable pub cancel : List Wait → List Wait
unfolding cancel_wait
cancel ws = map cancel_wait ws

-- `start()`: `expires_from_now` cancels what waits.
unfoldable pub restart : Timer → Timer
unfolding cancel
restart t = if t.duration == 0 then t else record t { waits = cancel t.waits ++ armed ∷ [] }

unfoldable pub start : ℕ → Timer → Timer
unfolding restart
start duration t =
    if t.ios_stopped || duration == 0
    then t
    else restart (record t { duration = duration; has_thread = true })

unfoldable pub stop : Timer → Timer
unfolding cancel
stop t = record t { waits = cancel t.waits }

-- The thread is joined, so no handler runs after it.
unfoldable pub destroy : Timer → Timer
unfolding stop
destroy t = record (stop t) { ios_stopped = true }

unfoldable pub bind : ℕ → Timer → Timer
bind func t = record t { func_vec = t.func_vec ++ func ∷ [] }

unfoldable pub set_single_shot : Bool → Timer → Timer
set_single_shot is_single_shot t = record t { is_single_shot = is_single_shot }

-- The handler of a wait, and the functions that it calls.
unfoldable pub on_wait : Wait → Timer → Timer × List ℕ
unfolding restart
on_wait over t = ((if t.is_single_shot then t else restart t), t.func_vec)
on_wait w t = (t, [])

-- The clock ends the wait that is armed.
unfoldable pub expire_wait : Wait → Wait
expire_wait armed = over
expire_wait w = w

pub data Event : Type 0 where
  starts : ℕ → Event
  stops : Event
  destroys : Event
  expires : Event
  -- the io_service calls the handler of the oldest wait that is cancelled or over
  handles : Event

-- The oldest wait that is not armed, and the others.
unfoldable pub take_ended : List Wait → Option (Wait × List Wait)
take_ended [] = none
take_ended (armed ∷ ws) = elim (take_ended ws) [
  | none ↦ none
  | some (w, rest) ↦ some (w, armed ∷ rest)
]
take_ended (w ∷ ws) = some (w, ws)

unfoldable pub handle : Option (Wait × List Wait) → Timer → Timer × List ℕ
handle none t = (t, [])
handle (some (w, rest)) t = on_wait w (record t { waits = rest })

unfoldable pub step : Event → Timer → Timer × List ℕ
unfolding expire_wait take_ended handle
step (starts duration) t = (start duration t, [])
step stops t = (stop t, [])
step destroys t = (destroy t, [])
step expires t = (record t { waits = map expire_wait t.waits }, [])
step handles t = if t.ios_stopped then (t, []) else handle (take_ended t.waits) t

unfoldable pub run : List Event → Timer → Timer × List ℕ
run [] t = (t, [])
run (e ∷ es) t = let (t', calls) = step e t in let (end, later) = run es t' in (end, calls ++ later)
