-- ===== src/TodyTasks/Preview.antt =====
-- The guardian's participation in a prepared task payload: app/agents/tody_task_actions.py.
use tachy_cognitive_ai_agent.Common.{
  ℕ, ◌<◌, ◌≡◌, refl, some, List, [], ◌∷◌, arith, Bool-cases, ◌⊎◌, inl, inr,
}
use mathlib.Core.Option.{some-injective}
use tachy_cognitive_ai_agent.Common.Int.{pos_part}
use tachy_cognitive_ai_agent.Safety.World.{returned}
use tachy_cognitive_ai_agent.TodyTasks.{
  Settings, TaskParams, Payload, is_in, clean_text, positive, add_id, add_guardian, watch_group,
  watch, new_payload, titled, prepare_create_payload, Client, World,
}
use tachy_cognitive_ai_agent.TodyTasks.Ids.{is_in-add_last}
use tachy_cognitive_ai_agent.TodyTasks.Actions.{
  resolve_guardian_user_id, enforce_guardian_participant,
}

add_guardian_twice :
    (id : ℕ) (p : Payload) → add_guardian id (add_guardian id p) ≡ add_guardian id p
unfolding add_guardian add_id
add_guardian_twice id p = elim (Bool-cases (is_in id p.assignee_ids)) [
  | inl old ↦ ground (arith, old)
  | inr new ↦ ground (arith, new, is_in-add_last id p.assignee_ids)
]

Title-cases : (title : List ℕ) → (title ≡ []) ⊎ ((c : ℕ) × (t : List ℕ) × (title ≡ c ∷ t))
Title-cases [] = inl refl
Title-cases (c ∷ t) = inr (c, t, refl)

module _ (C : Client) (s : Settings) (known : 0 < pos_part s.rohit_user_id) where
  resolve_known :
      (w : World) → resolve_guardian_user_id C s w ≡ (returned (some (pos_part s.rohit_user_id)), w)
  unfolding resolve_guardian_user_id positive
  resolve_known w = ground (arith, known)

  enforce-watch :
      (b : Payload) (w : World)
      → enforce_guardian_participant C s (watch s b) w ≡ (returned (watch s b), w)
  unfolding enforce_guardian_participant watch watch_group
  enforce-watch b w =
      ground (arith, known, resolve_known w, add_guardian_twice (pos_part s.rohit_user_id) b)

  -- Adding the guardian to a prepared payload changes nothing and asks the client nothing.
  pub enforce-prepare :
      (params : TaskParams) (p : Payload) (w : World)
      → prepare_create_payload s params ≡ some p
      → enforce_guardian_participant C s p w ≡ (returned p, w)
  unfolding prepare_create_payload titled
  enforce-prepare params p w h = elim (Title-cases (clean_text params.title 180)) [
    | inl e ↦ absurd (cc (rw e at h))
    | inr (c, t, e) ↦
        let q = enforce-watch (new_payload s params (c ∷ t)) w in
        rw (← some-injective _ _ (rw e at h)) q
  ]
