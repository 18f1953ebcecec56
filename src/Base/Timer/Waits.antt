-- ===== src/Base/Timer/Waits.antt =====
-- The waits of the timer of czrpc/base/atimer.hpp.
use czrpc.Prelude.{
  ℕ, suc, ◌+◌, ◌≤◌, true, false, List, [], ◌∷◌, ◌++◌, append-nil, map, Option, none, some, ◌≡◌, ◌≢◌,
  refl, arith, Option-cases, inl, inr,
}
use czrpc.Base.Timer.{
  Wait, armed, cancelled, over, Timer, cancel, cancel_wait, restart, start, stop, destroy, on_wait,
  expire_wait, take_ended, handle, step, run, Event, starts, stops, destroys, expires, handles,
}

abbrev pub armed_count : List Wait → ℕ
armed_count [] = 0
armed_count (armed ∷ ws) = suc (armed_count ws)
armed_count (w ∷ ws) = armed_count ws

armed_count-append : (us ws : List Wait) → armed_count (us ++ ws) ≡ armed_count us + armed_count ws
armed_count-append [] ws = omega arith
armed_count-append (armed ∷ us) ws = omega (arith, armed_count-append us ws)
armed_count-append (cancelled ∷ us) ws = armed_count-append us ws
armed_count-append (over ∷ us) ws = armed_count-append us ws

pub armed_count-cancel : (ws : List Wait) → armed_count (cancel ws) ≡ 0
unfolding cancel cancel_wait
armed_count-cancel [] = refl
armed_count-cancel (armed ∷ ws) = armed_count-cancel ws
armed_count-cancel (cancelled ∷ ws) = armed_count-cancel ws
armed_count-cancel (over ∷ ws) = armed_count-cancel ws

armed_count-expire : (ws : List Wait) → armed_count (map expire_wait ws) ≡ 0
unfolding expire_wait
armed_count-expire [] = refl
armed_count-expire (armed ∷ ws) = armed_count-expire ws
armed_count-expire (cancelled ∷ ws) = armed_count-expire ws
armed_count-expire (over ∷ ws) = armed_count-expire ws

restart_arms : (t : Timer) → armed_count t.waits ≤ 1 → armed_count (restart t).waits ≤ 1
unfolding restart
restart_arms t h =
    ground (arith, armed_count-append (cancel t.waits) (armed ∷ []), armed_count-cancel t.waits)

take_ended_keeps :
    (ws rest : List Wait) (w : Wait)
    → take_ended ws ≡ some (w, rest)
    → armed_count rest ≡ armed_count ws
unfolding take_ended
take_ended_keeps [] rest w e = absurd (cc)
take_ended_keeps (armed ∷ ws) rest w e = elim (Option-cases (take_ended ws)) [
  | inl n ↦ absurd (ground arith)
  | inr ((v, others), f) ↦ ground (arith, take_ended_keeps ws others v f)
]
take_ended_keeps (cancelled ∷ ws) rest w e = ground arith
take_ended_keeps (over ∷ ws) rest w e = ground arith

on_wait_arms :
    (w : Wait) (t : Timer) → armed_count t.waits ≤ 1 → armed_count (on_wait w t).0.waits ≤ 1
unfolding on_wait
on_wait_arms armed t h = h
on_wait_arms cancelled t h = h
on_wait_arms over t h = ground (arith, restart_arms t h)

handle_arms :
    (t : Timer) (o : Option (Wait × List Wait))
    → take_ended t.waits ≡ o
    → armed_count t.waits ≤ 1
    → armed_count (handle o t).0.waits ≤ 1
unfolding handle
handle_arms t none e h = h
handle_arms t (some (w, rest)) e h =
    on_wait_arms w (record t { waits = rest }) (omega (arith, take_ended_keeps t.waits rest w e))

step_arms : (e : Event) (t : Timer) → armed_count t.waits ≤ 1 → armed_count (step e t).0.waits ≤ 1
unfolding step start stop destroy
step_arms (starts d) t h =
    ground (arith, restart_arms (record t { duration = d; has_thread = true }) h)
step_arms stops t h = omega (arith, armed_count-cancel t.waits)
step_arms destroys t h = omega (arith, armed_count-cancel t.waits)
step_arms expires t h = omega (arith, armed_count-expire t.waits)
step_arms handles t h = ground (arith, handle_arms t (take_ended t.waits) refl h)

-- Whatever is done with a timer, at most one of its waits is armed, if that was so at the beginning.
pub run_arms :
    (events : List Event) (t : Timer)
    → armed_count t.waits ≤ 1
    → armed_count (run events t).0.waits ≤ 1
unfolding run
run_arms [] t h = h
run_arms (e ∷ es) t h = run_arms es (step e t).0 (step_arms e t h)

-- A single-shot timer that is at rest and is started calls its functions once when the time is over,
-- and not at all when it is stopped before that. When it is stopped after that, but before the handler
-- of its wait has been called, it calls them all the same.
pub stop_decides :
    (duration : ℕ) (t : Timer)
    → duration ≢ 0
    → t.ios_stopped ≡ false
    → t.is_single_shot ≡ true
    → t.waits ≡ []
    → ((run (starts duration ∷ expires ∷ handles ∷ handles ∷ []) t).1 ≡ t.func_vec)
      × ((run (starts duration ∷ stops ∷ expires ∷ handles ∷ []) t).1 ≡ [])
      × ((run (starts duration ∷ expires ∷ stops ∷ handles ∷ []) t).1 ≡ t.func_vec)
unfolding run step start stop restart cancel cancel_wait expire_wait take_ended handle on_wait
stop_decides duration t d s o w =
    (ground (arith, append-nil t.func_vec), ground arith, ground (arith, append-nil t.func_vec))
