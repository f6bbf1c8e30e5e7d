-- ===== src/Jobs/Guarantees/Identity.antt =====
-- Idempotent submission: an identity stands for one execution.
use umbral.Prelude.{
  ℕ, ◌≡◌, refl, none, some, Option, ok, err, arith, nat_eq, pair_eq, string_eq, inl, inr,
  Option-cases, Result-cases, Result,
}
use umbral.Prelude.Dict
use umbral.Prelude.Dict.{get-set_self}
use umbral.Jobs.Contracts.{JobKey, SubmitJob, key}
use umbral.Jobs.State.{Execution, JobSnapshot, Config, Runtime, init, snapshot}
use umbral.Jobs.Submit.{
  new_execution, enqueue, resolve, snapshot_of, get_job, submit_resolved, submit,
}
use umbral.Jobs.Invariant.{IsConsistent}
use umbral.Jobs.Invariant.Submit.{IsBounded, submit-IsConsistent}
use umbral.Jobs.Steps.{Reach}
use umbral.Jobs.Steps.Invariant.{Reach-IsConsistent, Reach-IsConsistent_of}
use umbral.Jobs.Steps.Growth.{Present}
use umbral.Jobs.Steps.Keeping.{Reach-Keeps}

-- The identity of the command names an execution of the runtime.
record IsNamed (k : JobKey) (id : ℕ) (r : Runtime) : Type 0 where
  entry : Dict.get k r.identity_index ≡ some id
  present : Present (Dict.get id r.executions)

Present-some : (o : Option Execution) → Present o → (e : Execution) × (o ≡ some e)
Present-some none p = absurd p
Present-some (some e) p = (e, refl)

-- The snapshot that came back is of the execution that the identity names.
abbrev Names : JobKey → Runtime × Result JobSnapshot → Type 0
Names k (r, ok s) = IsNamed k s.execution_id r
Names k (r, err f) = Unit

old-Names :
    (k : JobKey) (i : ℕ) (r : Runtime)
    → IsConsistent r
    → Dict.get k r.identity_index ≡ some i
    → Names k (r, get_job i r)
unfolding get_job snapshot_of
old-Names k i r h entry = elim (Option-cases (Dict.get i r.executions)) [
  | inl none_there ↦ rw (none_there, get_job) tt
  | inr (e, there) ↦
      rw (there, get_job)
        (unfold snapshot in
          record {
            entry = rw ((h.sound i e there).own_id) entry;
            present = rw ((h.sound i e there).own_id) (rw there tt);
          })
]

enqueue-Names :
    (fresh : ℕ) (k : SubmitJob) (r : Runtime)
    → Names (key k.identity) ((enqueue fresh k r).0, ok (enqueue fresh k r).1)
unfolding enqueue new_execution snapshot
enqueue-Names fresh k r = record {
  entry = get-set_self (key k.identity) fresh r.identity_index;
  present = rw (get-set_self fresh (new_execution fresh k r.now) r.executions) tt;
}

submit_resolved-Names :
    (fresh : ℕ) (k : SubmitJob) (r : Runtime)
    → IsConsistent r
    → Names (key k.identity) (submit_resolved fresh k r)
unfolding submit_resolved
submit_resolved-Names fresh k r h =
    elim (Option-cases (Dict.get (key k.identity) r.identity_index)) [
      | inl new ↦ rw (new, submit_resolved) (enqueue-Names fresh k r)
      | inr (i, old) ↦ rw (old, submit_resolved) (old-Names (key k.identity) i r h old)
    ]

-- Submitting a command whose identity names an execution changes nothing and answers for it.
submit_resolved-old :
    (fresh : ℕ) (k : SubmitJob) (id : ℕ) (r : Runtime)
    → IsConsistent r
    → IsNamed (key k.identity) id r
    → (s : JobSnapshot) × (submit_resolved fresh k r ≡ (r, ok s)) × (s.execution_id ≡ id)
unfolding submit_resolved get_job snapshot_of
submit_resolved-old fresh k id r h n =
    let (e, there) = Present-some (Dict.get id r.executions) n.present in
    (
      snapshot e,
      rw (n.entry, submit_resolved) (rw (there, get_job)),
      unfold snapshot in (h.sound id e there).own_id,
    )

Names-ok :
    (k : JobKey) (x : Runtime × Result JobSnapshot) (s : JobSnapshot)
    → Names k x
    → x.1 ≡ ok s
    → IsNamed k s.execution_id x.0
Names-ok k (r, ok t) s n e = ground (arith, n)
Names-ok k (r, err f) s n e = cc

-- An accepted command was resolved to one whose identity names the execution that came back.
submit-IsNamed :
    (c : Config) (fresh : ℕ) (command : SubmitJob) (s : JobSnapshot) (r : Runtime)
    → IsConsistent r
    → (submit c fresh command r).1 ≡ ok s
    → (k : SubmitJob) × (resolve c command ≡ ok k)
      × IsNamed (key k.identity) s.execution_id (submit c fresh command r).0
unfolding submit
submit-IsNamed c fresh command s r h done = elim (Result-cases (resolve c command)) [
  | inl (k, eq) ↦ (
    k,
    eq,
    rw (eq, submit)
        (Names-ok (key k.identity) (submit_resolved fresh k r) s (submit_resolved-Names fresh k r h)
          (rw (eq, submit) at done)),
  )
  | inr (f, eq) ↦ cc (rw (eq, submit) at done)
]

-- A command with a number of attempts in range that was accepted once, on a runtime that calls of the port
-- reach and under a fresh identifier, is answered after any further calls of the port, whatever
-- identifier is generated, with the same execution, and the runtime is left as it is: no second
-- execution is made.
pub resubmit_same :
    (c : Config) (now fresh again : ℕ) (command : SubmitJob) (s : JobSnapshot) (r t : Runtime)
    → Reach c (init now) r
    → IsBounded command
    → Dict.get fresh r.executions ≡ none
    → (submit c fresh command r).1 ≡ ok s
    → Reach c (submit c fresh command r).0 t
    → (s' : JobSnapshot) × (submit c again command t ≡ (t, ok s'))
      × (s'.execution_id ≡ s.execution_id)
unfolding submit
resubmit_same c now fresh again command s r t p bounded new done q =
    let h = Reach-IsConsistent c now r p in
    let (k, eq, named) = submit-IsNamed c fresh command s r h done in
    let keeps = Reach-Keeps q in
    let ht = Reach-IsConsistent_of (submit-IsConsistent c fresh command r h bounded new) q in
    let still : IsNamed (key k.identity) s.execution_id t = record {
      entry = keeps.entry (key k.identity) s.execution_id named.entry;
      present = keeps.kept s.execution_id named.present;
    } in
    let (s', same, id) = submit_resolved-old again k s.execution_id t ht still in
    (s', rw (eq, submit) same, id)
