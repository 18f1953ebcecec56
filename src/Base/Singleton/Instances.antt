-- ===== src/Base/Singleton/Instances.antt =====
-- The instances of the singleton of czrpc/base/singleton.hpp.
use czrpc.Prelude.{
  ℕ, zero, suc, List, [], ◌∷◌, ◌++◌, append-nil, append_assoc, Option, none, some, ◌≡◌, ◌≢◌, refl,
  arith,
}
use czrpc.Base.Singleton.{
  Phase, testing, constructing, Destroying, deleting, nulling, Singleton, no_instance, Step,
  creates, locks, proceeds, destroys, goes_on, create, lock, proceed, destroy, destroy_next,
  take_at, get, step, run,
}

-- The instance that `t_` points to, if it has not been deleted.
abbrev pub live : Option ℕ → List Destroying → List ℕ
live none ds = []
live (some a) (nulling ∷ ds) = []
live (some a) ds = a ∷ []

-- What one thread in `destroy` at most, beside any number in `create`, may leave behind at any time.
record IsTracked (s : Singleton) : Type 0 where
  -- no thread constructs while there is an instance
  exclusive : (args : ℕ) → s.holder ≡ some (constructing args) → s.t ≡ none
  -- there is an instance while a thread is in `destroy`
  held : (ds : List Destroying) (d : Destroying) → s.destroyers ≡ d ∷ ds → (s.t ≢ none) × (ds ≡ [])
  tracked : s.constructed ≡ s.deleted ++ live s.t s.destroyers

-- No call of `destroy` begins while another one runs.
abbrev pub AreApart : List Step → Singleton → Type 0
AreApart [] s = Unit {0}
AreApart (destroys ∷ xs) s = (s.destroyers ≡ []) × AreApart xs (step destroys s)
AreApart (x ∷ xs) s = AreApart xs (step x s)

create-IsTracked : (args : ℕ) (s : Singleton) → IsTracked s → IsTracked (create args s)
unfolding create
create-IsTracked args s h = record {
  exclusive = λ a e. ground (arith, h.exclusive a);
  held = λ ds d e. ground (arith, h.held ds d);
  tracked = ground (arith, h.tracked);
}

lock-IsTracked : (o : Option (ℕ × List ℕ)) (s : Singleton) → IsTracked s → IsTracked (lock o s)
unfolding lock
lock-IsTracked none s h = h
lock-IsTracked (some (args, rest)) s h = record {
  exclusive = λ a e. ground (arith, h.exclusive a);
  held = λ ds d e. ground (arith, h.held ds d);
  tracked = ground (arith, h.tracked);
}

none_destroys :
    (ds : List Destroying) (s : Singleton)
    → s.destroyers ≡ ds
    → s.t ≡ none
    → IsTracked s
    → s.destroyers ≡ []
none_destroys [] s e n h = e
none_destroys (d ∷ ds) s e n h = absurd ((h.held ds d e).0 n)

proceed-IsTracked :
    (o : Option Phase) (s : Singleton) → s.holder ≡ o → IsTracked s → IsTracked (proceed o s)
unfolding proceed
proceed-IsTracked none s e h = h
proceed-IsTracked (some (testing args)) s e h = record {
  exclusive = λ a x. ground (arith, h.exclusive a);
  held = λ ds d x. ground (arith, h.held ds d);
  tracked = ground (arith, h.tracked);
}
proceed-IsTracked (some (constructing args)) s e h =
    let unheld = none_destroys s.destroyers s refl (h.exclusive args e) h in
    record {
      exclusive = λ a x. absurd (cc);
      held = λ ds d x. absurd (cc);
      tracked = ground (arith, h.tracked, h.exclusive args e, unheld, append-nil s.deleted);
    }

destroy-IsTracked : (s : Singleton) → s.destroyers ≡ [] → IsTracked s → IsTracked (destroy s)
unfolding destroy
destroy-IsTracked s e h = record {
  exclusive = λ a x. ground (arith, h.exclusive a);
  held = λ ds d x. ground (arith, e);
  tracked = ground (arith, h.tracked, e);
}

goes_on-IsTracked :
    (n : ℕ) (ds : List Destroying) (s : Singleton)
    → s.destroyers ≡ ds
    → IsTracked s
    → IsTracked (destroy_next (take_at n ds) s)
unfolding destroy_next
goes_on-IsTracked n [] s e h = h
goes_on-IsTracked zero (deleting ∷ ds) s e h =
    let (some_t, alone) = h.held ds deleting e in
    record {
      exclusive = λ a x. ground (arith, h.exclusive a);
      held = λ ds' d x. ground (arith, some_t, alone);
      tracked =
          ground
            (arith, h.tracked, e, some_t, alone, append-nil (s.deleted ++ live s.t s.destroyers));
    }
goes_on-IsTracked zero (nulling ∷ ds) s e h =
    let (some_t, alone) = h.held ds nulling e in
    record {
      exclusive = λ a x. refl;
      held = λ ds' d x. absurd (cc);
      tracked = ground (arith, h.tracked, e, some_t, alone);
    }
goes_on-IsTracked (suc n) (d ∷ ds) s e h = let (some_t, alone) = h.held ds d e in rw alone h

step-IsTracked :
    (x : Step) (s : Singleton) → AreApart (x ∷ []) s → IsTracked s → IsTracked (step x s)
unfolding step
step-IsTracked (creates args) s apart h = create-IsTracked args s h
step-IsTracked (locks n) s apart h = lock-IsTracked (take_at n s.waiting) s h
step-IsTracked proceeds s apart h = proceed-IsTracked s.holder s refl h
step-IsTracked destroys s apart h = destroy-IsTracked s apart.0 h
step-IsTracked (goes_on n) s apart h = goes_on-IsTracked n s.destroyers s refl h

run-IsTracked :
    (xs : List Step) (s : Singleton) → AreApart xs s → IsTracked s → IsTracked (run xs s)
unfolding run
run-IsTracked [] s apart h = h
run-IsTracked (creates args ∷ xs) s apart h =
    run-IsTracked xs _ apart (step-IsTracked (creates args) s tt h)
run-IsTracked (locks n ∷ xs) s apart h = run-IsTracked xs _ apart (step-IsTracked (locks n) s tt h)
run-IsTracked (proceeds ∷ xs) s apart h = run-IsTracked xs _ apart (step-IsTracked proceeds s tt h)
run-IsTracked (destroys ∷ xs) s apart h =
    run-IsTracked xs _ apart.1 (step-IsTracked destroys s (apart.0, tt) h)
run-IsTracked (goes_on n ∷ xs) s apart h =
    run-IsTracked xs _ apart (step-IsTracked (goes_on n) s tt h)

-- Under every schedule of threads that create and destroy the instance, in which no call of `destroy`
-- begins while another one runs, all that has been constructed has been deleted, once and in the same
-- order, or is the one instance that `t_` points to and that has not been deleted yet.
pub run_tracks :
    (steps : List Step)
    → AreApart steps no_instance
    → let s = run steps no_instance in s.constructed ≡ s.deleted ++ live (get s) s.destroyers
unfolding get
run_tracks steps apart =
    (run-IsTracked steps no_instance apart
      (record { exclusive = λ a e. refl; held = λ ds d e. absurd (cc); tracked = refl })).tracked

-- Two calls of `destroy` that both test before either deletes, delete the same instance.
overlapping_destroys :
    (a : ℕ) (s : Singleton)
    → s.t ≡ some a
    → s.destroyers ≡ []
    → (run (destroys ∷ destroys ∷ goes_on 0 ∷ goes_on 0 ∷ []) s).deleted ≡ s.deleted ++ a ∷ a ∷ []
unfolding run step destroy destroy_next
overlapping_destroys a s e n = ground (arith, append_assoc s.deleted (a ∷ []) (a ∷ []))
