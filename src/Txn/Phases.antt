-- ===== src/Txn/Phases.antt =====
-- The prepare phase of Commit.
use mathlib.Core.Path.{subst}
use shard_db.Base.{
  ◌≡◌, refl, sym, ap, ◌∙◌, true, false, Option, none, some, List, [], ◌∷◌, ◌++◌, append_assoc,
  append-nil, arith, Bool-cases, inl, inr, ◌⊎◌,
}
use shard_db.Bytes.{Bytes}
use shard_db.Dict.{Dict}
use shard_db.Txn.{WriteIntent, Env, Message, prepare, prepare_intents, prepare_all}

-- The prepare requests for the writes of a shard, and of all shards.
abbrev pub shard_prepares : Bytes → Bytes → List WriteIntent → List Message
shard_prepares txn_id shard [] = []
shard_prepares txn_id shard (w ∷ ws) =
    prepare shard w.key w.value txn_id ∷ shard_prepares txn_id shard ws

abbrev pub prepares : Bytes → Dict (List WriteIntent) → List Message
prepares txn_id [] = []
prepares txn_id ((shard, intents) ∷ rest) =
    shard_prepares txn_id shard intents ++ prepares txn_id rest

-- Every request is answered with status 200, in this order from this log on.
abbrev pub Accepted : Env → List Message → List Message → Type 0
Accepted env log [] = Unit
Accepted env log (m ∷ ms) = (env.responds log m ≡ true) × Accepted env (log ++ m ∷ []) ms

-- The requests up to the first that is refused.
pub record Refusal (env : Env) (log ms : List Message) (after : List Message) : Type 0 where
  pub before : List Message
  pub refused : Message
  pub unsent : List Message
  pub planned : ms ≡ before ++ refused ∷ unsent
  pub accepted : Accepted env log before
  pub answer : env.responds (log ++ before) refused ≡ false
  pub sent : after ≡ (log ++ before) ++ refused ∷ []

Accepted-append :
    (env : Env) (ms ns log : List Message)
    → Accepted env log ms
    → Accepted env (log ++ ms) ns
    → Accepted env log (ms ++ ns)
Accepted-append env [] ns log a b = subst (λ l. Accepted env l ns) (append-nil log) b
Accepted-append env (m ∷ ms) ns log a b = (
  a.0,
  Accepted-append env ms ns (log ++ m ∷ []) a.1
      (subst (λ l. Accepted env l ns) (sym (append_assoc log (m ∷ []) ms)) b),
)

-- The request that asks the shard to prepare the key.
abbrev pub IsPrepareOf : Bytes → Bytes × Bytes → Message → Type 0
IsPrepareOf txn_id (shard, key) m = (value : Bytes) × (m ≡ prepare shard key value txn_id)

-- A refusal of a request that is called by the name.
abbrev Refused :
    {K : Type 0}
    → (K → Message → Type 0)
    → Env
    → List Message
    → List Message
    → List Message
    → K
    → Type 0
Refused Names env log ms after key =
    (refusal : Refusal env log ms after) × Names key refusal.refused

-- What a run of requests comes to, with the name of the one that is refused.
abbrev pub Ran :
    {K : Type 0}
    → (K → Message → Type 0)
    → Env
    → List Message
    → List Message
    → List Message × Option K
    → Type 0
Ran {K} Names env log ms r =
    ((r.1 ≡ none) × Accepted env log ms × (r.0 ≡ log ++ ms))
    ⊎ ((key : K) × (r.1 ≡ some key) × Refused Names env log ms r.0 key)

abbrev refuse :
    (env : Env) (log : List Message) (m : Message) (ms : List Message)
    → env.responds log m ≡ false
    → Refusal env log (m ∷ ms) (log ++ m ∷ [])
refuse env log m ms h = record {
  before = [];
  refused = m;
  unsent = ms;
  planned = refl;
  accepted = tt;
  answer = ap (λ l. env.responds l m) (append-nil log) ∙ h;
  sent = ap (λ l. l ++ m ∷ []) (sym (append-nil log));
}

-- A refusal behind requests that are answered.
abbrev refuse_later :
    (env : Env) (log done ms after : List Message)
    → Accepted env log done
    → Refusal env (log ++ done) ms after
    → Refusal env log (done ++ ms) after
refuse_later env log done ms after a r = record {
  before = done ++ r.before;
  refused = r.refused;
  unsent = r.unsent;
  planned = ap (λ l. done ++ l) r.planned ∙ sym (append_assoc done r.before (r.refused ∷ r.unsent));
  accepted = Accepted-append env done r.before log a r.accepted;
  answer = ap (λ l. env.responds l r.refused) (sym (append_assoc log done r.before)) ∙ r.answer;
  sent = r.sent ∙ ap (λ l. l ++ r.refused ∷ []) (append_assoc log done r.before);
}

Ran-next :
    {K : Type 0} (Names : K → Message → Type 0) (env : Env) (log : List Message) (m : Message)
    (ms : List Message) (r : List Message × Option K)
    → env.responds log m ≡ true
    → Ran Names env (log ++ m ∷ []) ms r
    → Ran Names env log (m ∷ ms) r
Ran-next Names env log m ms r h (inl (done, a, e)) =
    inl (done, (h, a), e ∙ append_assoc log (m ∷ []) ms)
Ran-next Names env log m ms r h (inr (key, e, (refusal, named))) =
    inr (key, e, (refuse_later env log (m ∷ []) ms r.0 (h, tt) refusal, named))

prepare_intents_lem :
    (env : Env) (txn_id shard : Bytes) (ws : List WriteIntent) (log : List Message)
    → Ran
        (λ key m. IsPrepareOf txn_id (shard, key) m)
        env
        log
        (shard_prepares txn_id shard ws)
        (prepare_intents env txn_id shard ws log)
unfolding prepare_intents
prepare_intents_lem env txn_id shard [] log = inl (refl, tt, sym (append-nil log))
prepare_intents_lem env txn_id shard (w ∷ ws) log =
    let m = prepare shard w.key w.value txn_id in
    let ms = shard_prepares txn_id shard ws in
    elim (Bool-cases (env.responds log m)) [
      | inr no_reply ↦
          let step : prepare_intents env txn_id shard (w ∷ ws) log ≡ (log ++ m ∷ [], some w.key) =
            ground arith in
          subst (Ran (λ key n. IsPrepareOf txn_id (shard, key) n) env log (m ∷ ms)) (sym step)
            (inr (w.key, refl, (refuse env log m ms no_reply, (w.value, refl))))
      | inl reply ↦
          let next = prepare_intents env txn_id shard ws (log ++ m ∷ []) in
          let step : prepare_intents env txn_id shard (w ∷ ws) log ≡ next = ground arith in
          subst (Ran (λ key n. IsPrepareOf txn_id (shard, key) n) env log (m ∷ ms)) (sym step) (
            Ran-next (λ key n. IsPrepareOf txn_id (shard, key) n) env log m ms next reply
              (prepare_intents_lem env txn_id shard ws (log ++ m ∷ [])))
    ]

-- A refusal in front of requests that are then not sent.
abbrev refuse_before :
    (env : Env) (log ms ns after : List Message)
    → Refusal env log ms after
    → Refusal env log (ms ++ ns) after
refuse_before env log ms ns after r = record {
  before = r.before;
  refused = r.refused;
  unsent = r.unsent ++ ns;
  planned = ap (λ l. l ++ ns) r.planned ∙ append_assoc r.before (r.refused ∷ r.unsent) ns;
  accepted = r.accepted;
  answer = r.answer;
  sent = r.sent;
}

-- The shards after one whose prepare requests are all accepted.
Ran-shard :
    {K : Type 0} (Names : K → Message → Type 0) (env : Env) (log ms ns log' : List Message)
    (r : List Message × Option K)
    → log' ≡ log ++ ms
    → Accepted env log ms
    → Ran Names env log' ns r
    → Ran Names env log (ms ++ ns) r
Ran-shard Names env log ms ns log' r e a (inl (done, b, e')) = inl (
  done,
  Accepted-append env ms ns log a (subst (λ l. Accepted env l ns) e b),
  e' ∙ ap (λ l. l ++ ns) e ∙ append_assoc log ms ns,
)
Ran-shard Names env log ms ns log' r e a (inr (key, e', refused)) =
    let (refusal, named) = subst (λ l. Refused Names env l ns r.0 key) e refused in
    inr (key, e', (refuse_later env log ms ns r.0 a refusal, named))

-- The prepare phase sends the requests of each shard in turn. Either all are accepted, or the phase
-- stops at the first that is refused, and names its shard and its key.
pub prepare_all_lem :
    (env : Env) (txn_id : Bytes) (groups : Dict (List WriteIntent)) (log : List Message)
    → Ran (IsPrepareOf txn_id) env log (prepares txn_id groups) (prepare_all env txn_id groups log)
unfolding prepare_all
prepare_all_lem env txn_id [] log = inl (refl, tt, sym (append-nil log))
prepare_all_lem env txn_id ((shard, intents) ∷ rest) log =
    let ms = shard_prepares txn_id shard intents in
    let ns = prepares txn_id rest in
    let r = prepare_intents env txn_id shard intents log in
    elim (prepare_intents_lem env txn_id shard intents log) [
      | inr (key, refused, (refusal, named)) ↦
          let step : prepare_all env txn_id ((shard, intents) ∷ rest) log
              ≡ (r.0, some (shard, key)) =
            ground arith in
          subst (Ran (IsPrepareOf txn_id) env log (ms ++ ns)) (sym step)
            (inr ((shard, key), refl, (refuse_before env log ms ns r.0 refusal, named)))
      | inl (done, accepted, sent) ↦
          let step : prepare_all env txn_id ((shard, intents) ∷ rest) log
              ≡ prepare_all env txn_id rest r.0 =
            ground arith in
          subst (Ran (IsPrepareOf txn_id) env log (ms ++ ns)) (sym step) (
            Ran-shard (IsPrepareOf txn_id) env log ms ns r.0 (prepare_all env txn_id rest r.0) sent
              accepted (prepare_all_lem env txn_id rest r.0))
    ]
