-- ===== src/System/Publications/Effects.antt =====
-- What publications come to in the program of a subscriber of czrpc/client/sub_client.hpp: its state
-- behind the calls of its functions.
use czrpc.Prelude.{
  Bytes, Bytes-discrete, ℕ, List, [], ◌∷◌, map, Option, none, some, All, ◌≡◌, refl, ap, ◌∙◌,
}
use czrpc.Base.Map
use czrpc.Base.Protobuf.{Protobuf, IsDocumented}
use czrpc.Base.Protocol.{PushContent}
use czrpc.Client.SubInvoker.{Function, invoke, invoke_raw}
use czrpc.Client.SubRouter.{SubRouter, Call, message_call, raw_call}
use czrpc.Client.SubClient as SubClient
use czrpc.System.Publications.{
  Publication, message, raw_data, content_of, CanPublish, called, calls-contents_of,
}

-- The functions that a program has subscribed with, by their numbers.
pub record Program (pb : Protobuf) (State : Type 0) : Type 1 where
  pub functions : ℕ → Function State pb.Message
  pub raw_functions : ℕ → Function State Bytes

module _ (pb : Protobuf) (State : Type 0) (program : Program pb State) where
  abbrev run_call : Option (Call pb) → State → State
  run_call none s = s
  run_call (some (message_call func m)) s = invoke pb (program.functions func) m s
  run_call (some (raw_call func data')) s = invoke_raw (program.raw_functions func) data' s

  run_calls : List (Option (Call pb)) → State → State
  run_calls [] s = s
  run_calls (call ∷ calls) s = run_calls calls (run_call call s)

  -- A thread of the pool works off the pushes.
  abbrev pub handle_pushes : SubRouter → List PushContent → State → State
  handle_pushes sub [] s = s
  handle_pushes sub (content ∷ rest) s =
      handle_pushes sub rest (run_call (SubClient.router_thread pb content sub) s)

  -- The functions of the program one after the other, and nothing else.
  abbrev pub played : ℕ → ℕ → List (Publication pb) → State → State
  played func raw_func [] s = s
  played func raw_func (message m ∷ ps) s = played func raw_func ps (program.functions func m s).0
  played func raw_func (raw_data data' ∷ ps) s =
      played func raw_func ps (program.raw_functions raw_func data' s).0

  handled :
      (sub : SubRouter) (contents : List PushContent) (s : State)
      → handle_pushes sub contents s
        ≡ run_calls (map (λ content. SubClient.router_thread pb content sub) contents) s
  unfolding run_calls
  handled sub [] s = refl
  handled sub (content ∷ rest) s =
      handled sub rest (run_call (SubClient.router_thread pb content sub) s)

  called_played :
      (topic : Bytes) (func raw_func : ℕ) (ps : List (Publication pb)) (s : State)
      → run_calls (map (called pb topic func raw_func) ps) s ≡ played func raw_func ps s
  unfolding run_calls invoke invoke_raw
  called_played topic func raw_func [] s = refl
  called_played topic func raw_func (message m ∷ ps) s =
      called_played topic func raw_func ps (program.functions func m s).0
  called_played topic func raw_func (raw_data data' ∷ ps) s =
      called_played topic func raw_func ps (program.raw_functions raw_func data' s).0

  -- A subscriber that works off the pushes of publications on a topic, messages and raw data, runs its
  -- two functions of the topic on what was published, in order, and comes to the state that they lead
  -- to, whatever they throw: an exception keeps no later push from its function.
  pub publications_played :
      (topic : Bytes) (func raw_func : ℕ) (sub : SubRouter) (ps : List (Publication pb)) (s : State)
      → IsDocumented pb
      → Map.find Bytes-discrete topic sub.route_map ≡ some func
      → Map.find Bytes-discrete topic sub.route_raw_map ≡ some raw_func
      → All (CanPublish pb topic) ps
      → handle_pushes sub (map (content_of pb topic) ps) s ≡ played func raw_func ps s
  publications_played topic func raw_func sub ps s doc f g h =
      handled sub (map (content_of pb topic) ps) s
      ∙ ap (λ calls. run_calls calls s) (calls-contents_of pb topic func raw_func sub ps doc f g h)
      ∙ called_played topic func raw_func ps s
