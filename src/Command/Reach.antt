-- ===== src/Command/Reach.antt =====
-- Any sequence of whole calls, each with its own environment: commands issued under new ids,
-- acknowledged, timed out, and flushed on a reconnect, while devices come and go and Redis drops what
-- has run out.
use iotaps.Common.{
  ℕ, ◌≤◌, ◌≡◌, refl, ◌⊎◌, true, String, Option, none, some, List, inl, inr, ltb, arith, Bool-cases,
  Option-cases,
}
use iotaps.Command.Status.{is_terminal}
use iotaps.Command.Lifecycle.{Advances, Advances-refl, Advances-trans, Advances-terminal}
use iotaps.Command.World.{Saved, World, Env, save_record, runs_out, still_held, lapse}
use iotaps.Command.Service.{
  TenantScope, confirm_command, expire_command, flush_queued_commands, issue_command,
}
use iotaps.Command.Issue.{issue_command-records}
use iotaps.Command.Evolution.{
  IsFiled, Evolves, Evolves-trans, Evolves-same, save-Evolves_new, confirm_command-Evolves,
  expire_command-Evolves, flush_queued_commands-Evolves,
}

pub issue_command-Evolves :
    (env : Env) (scope : TenantScope) (d : ℕ) (kind : String) (value : Option ℕ)
    (target : Option String) (timeout : ℕ) (w : World)
    → IsFiled w
    → w.records env.fresh_id ≡ none
    → Evolves w (issue_command env scope d kind value target timeout w).1
issue_command-Evolves env scope d kind value target timeout w f new =
    elim (issue_command-records env scope d kind value target timeout w) [
      | inl same ↦ Evolves-same w after_issue same f
      | inr (r, own, saved) ↦
          let stored : Evolves w (save_record r w) = save-Evolves_new r w f (rw own new) in
          Evolves-trans w (save_record r w) after_issue stored
            (Evolves-same (save_record r w) after_issue saved stored.0)
    ]
  where
    after_issue : World
    after_issue = (issue_command env scope d kind value target timeout w).1

-- One call, a change of who is online, or the passing of time.
pub data Step : World → World → Type 0 where
  issue :
      (env : Env) (scope : TenantScope) (d : ℕ) (kind : String) (value : Option ℕ)
      (target : Option String) (timeout : ℕ) (w : World)
      → w.records env.fresh_id ≡ none
      → Step w (issue_command env scope d kind value target timeout w).1
  confirm : (env : Env) (id : ℕ) (w : World) → Step w (confirm_command env id w).1
  expire : (env : Env) (id : ℕ) (w : World) → Step w (expire_command env id w).1
  flush : (env : Env) (token : ℕ) (w : World) → Step w (flush_queued_commands env token w).1
  presence : (online : List ℕ) (w : World) → Step w (record w { online = online })
  pass : (now : ℕ) (w : World) → Step w (lapse now w)

pub data Run (w : World) : World → Type 0 where
  here : Run w w
  next : {u v : World} → Run w u → Step u v → Run w v

-- A record with this id was held until it ran out in the step.
abbrev pub Drops : {w w' : World} → ℕ → Step w w' → Type 0
Drops id (issue env scope d kind value target timeout w new) = ⊥
Drops id (confirm env i w) = ⊥
Drops id (expire env i w) = ⊥
Drops id (flush env token w) = ⊥
Drops id (presence online w) = ⊥
Drops id (pass now w) = (s : Saved) × (w.records id ≡ some s) × (runs_out s ≤ now)

-- Somewhere in the run.
abbrev pub RanOut : {w w' : World} → ℕ → Run w w' → Type 0
RanOut id here = ⊥
RanOut id (next r st) = RanOut id r ⊎ Drops id st

pub lapse-IsFiled : (now : ℕ) (w : World) → IsFiled w → IsFiled (lapse now w)
unfolding lapse still_held
lapse-IsFiled now w f id s h = elim (Option-cases (w.records id)) [
  | inl missing ↦ ground (arith, h, missing)
  | inr (t, found) ↦ ground (arith, h, found, f id t found)
]

-- What is held stays, or has run out.
lapse-records :
    (now id : ℕ) (s : Saved) (w : World)
    → w.records id ≡ some s
    → ((lapse now w).records id ≡ some s) ⊎ (runs_out s ≤ now)
unfolding lapse still_held
lapse-records now id s w h = elim (Bool-cases (ltb now (runs_out s))) [
  | inl early ↦ inl (rw (h, early) refl)
  | inr late ↦ inr (ground arith)
]

-- The record is still there, in a status that legal events lead to.
abbrev pub Held : ℕ → Saved → World → Type 0
Held id s w = (t : Saved) × (w.records id ≡ some t) × Advances s.held.status t.held.status

Evolves-Held : (id : ℕ) (s : Saved) (u v : World) → Evolves u v → Held id s u → Held id s v
Evolves-Held id s u v (filed, grows) (t, found, adv) =
    let (t', found', adv') = grows id t found in
    (t', found', Advances-trans s.held.status t.held.status t'.held.status adv adv')

Step-IsFiled : {w w' : World} → Step w w' → IsFiled w → IsFiled w'
Step-IsFiled (issue env scope d kind value target timeout w new) f =
    (issue_command-Evolves env scope d kind value target timeout w f new).0
Step-IsFiled (confirm env id w) f = (confirm_command-Evolves env id w f).0
Step-IsFiled (expire env id w) f = (expire_command-Evolves env id w f).0
Step-IsFiled (flush env token w) f = (flush_queued_commands-Evolves env token w f).0
Step-IsFiled (presence online w) f = f
Step-IsFiled (pass now w) f = lapse-IsFiled now w f

pub Run-IsFiled : {w w' : World} → Run w w' → IsFiled w → IsFiled w'
Run-IsFiled here f = f
Run-IsFiled (next r st) f = Step-IsFiled st (Run-IsFiled r f)

Step-Held :
    {u v : World} (id : ℕ) (s : Saved) (st : Step u v)
    → IsFiled u
    → Held id s u
    → Drops id st ⊎ Held id s v
Step-Held id s (issue env scope d kind value target timeout w new) f h = inr (
    Evolves-Held id s w (issue_command env scope d kind value target timeout w).1
      (issue_command-Evolves env scope d kind value target timeout w f new) h)
Step-Held id s (confirm env i w) f h =
    inr (Evolves-Held id s w (confirm_command env i w).1 (confirm_command-Evolves env i w f) h)
Step-Held id s (expire env i w) f h =
    inr (Evolves-Held id s w (expire_command env i w).1 (expire_command-Evolves env i w f) h)
Step-Held id s (flush env token w) f h = inr (
    Evolves-Held id s w (flush_queued_commands env token w).1
      (flush_queued_commands-Evolves env token w f) h)
Step-Held id s (presence online w) f h = inr h
Step-Held id s (pass now w) f (t, found, adv) = elim (lapse-records now id t w found) [
  | inl kept ↦ inr (t, kept, adv)
  | inr late ↦ inl (t, found, late)
]

Run-Held :
    {w w' : World} (id : ℕ) (s : Saved) (r : Run w w')
    → IsFiled w
    → w.records id ≡ some s
    → RanOut id r ⊎ Held id s w'
unfolding lapse
Run-Held id s here f h = inr (s, h, Advances-refl s.held.status)
Run-Held id s (next r st) f h = elim (Run-Held id s r f h) [
  | inl gone ↦ inl (inl gone)
  | inr held ↦ elim (Step-Held id s st (Run-IsFiled r f) held) [
    | inl dropped ↦ inl (inr dropped)
    | inr still ↦ inr still
  ]
]

-- Whatever calls run one after the other, in whatever order, and whichever publishes fail, a stored
-- command either ran out somewhere, when the time that it was last saved for was over, or is still
-- there afterwards and its status has moved by legal events only.
-- So one that was confirmed or given up stays so: a late acknowledgement, a late timer or a second
-- flush does not change it. Nothing is said of two calls on one command whose reads and writes mix.
pub Run-Advances :
    (w w' : World) (id : ℕ) (s : Saved) (r : Run w w')
    → IsFiled w
    → w.records id ≡ some s
    → RanOut id r
      ⊎ ((s' : Saved) × (w'.records id ≡ some s')
          × Advances s.held.status s'.held.status
          × (is_terminal s.held.status ≡ true → s'.held.status ≡ s.held.status))
Run-Advances w w' id s r f h = elim (Run-Held id s r f h) [
  | inl gone ↦ inl gone
  | inr (s', found, adv) ↦
      inr (s', found, adv, λ t. Advances-terminal s.held.status s'.held.status t adv)
]
