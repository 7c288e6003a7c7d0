-- ===== src/Coding/Finished.antt =====
-- app/coding/agent.py: how the loop of `execute` ends, and what it has run by then.
use tachy_cognitive_ai_agent.Common.{
  ℕ, zero, suc, ◌+◌, ◌≤◌, ◌≡◌, refl, false, Option, none, some, List, [], ◌∷◌, ◌++◌, inl, inr, ap,
  arith,
}
use tachy_cognitive_ai_agent.Coding.{
  Text, Services, Patterns, Outcome, returned, raised, M, Trace, Event, asked_model, coding,
}
use tachy_cognitive_ai_agent.Coding.Ensures.{Post, Ensures, Ensures-bind}
use tachy_cognitive_ai_agent.Coding.Execute.{Loop, AgentRun, Config, RunError, hit_step_limit}
use tachy_cognitive_ai_agent.Coding.Transcript.{compact}
use tachy_cognitive_ai_agent.Coding.Guarded.{any_tool, Cleared}
use tachy_cognitive_ai_agent.Coding.Rounds.{
  Step, again, stop, round, go_on, rounds, finalize, collapsing, start, execute, or_limit,
}
use tachy_cognitive_ai_agent.Coding.Outcomes.{Fault, bad_call, G, Finished, Open, Sound}
use tachy_cognitive_ai_agent.Coding.Answered.{on_answer-Sound}

module _ (P : Patterns) (S : Services) (cfg : Config) where
  -- The trace goes on from `origin`.
  abbrev From : Trace → Trace → Type 0
  From origin t = (G P S cfg) t × ((later : List Event) × (t ≡ later ++ origin))

  From-keeps :
      (origin : Trace) (e : Event) (t : Trace)
      → Cleared P cfg.autonomy any_tool e t
      → From origin t
      → From origin (e ∷ t)
  From-keeps origin e t c (g, (later, q)) = ((c, g), (e ∷ later, ap (λ (u : Trace). e ∷ u) q))

  Post-From :
      (origin : Trace) (r : Outcome Step × Trace)
      → Post (From origin) (Fault P S cfg) (Sound P S cfg) r
      → Post (G P S cfg) (Fault P S cfg) (Sound P S cfg) r
  Post-From origin (returned a, t) (i, q) = (i.0, q)
  Post-From origin (raised e, t) (i, q) = (i.0, q)

  round-Sound :
      (step : ℕ) (l : Loop)
      → l.run.done ≡ false
      → suc step ≤ cfg.max_steps
      → Ensures (G P S cfg) (Fault P S cfg) (round P S cfg step l) (Sound P S cfg)
  unfolding round
  round-Sound step l d b = record {
    at = λ t i.
        let t' = asked_model coding ∷ t in
        let transcript = compact 12 l.transcript in
        Post-From t' _ (
          (on_answer-Sound P S cfg (From t') (From-keeps t') (S.model t' coding transcript) _
              (λ raw r a p m e u j. bad_call t j.1.0 transcript raw r j.1.1 a p m) (d, b)).at
            t' ((tt, i), ([], refl)));
  }

  go_on-Finished :
      (next : Loop → M Loop)
      → ((l : Loop)
          → Open P S cfg l
          → Ensures (G P S cfg) (Fault P S cfg) (next l) (λ l'. (Finished P S cfg) l'.run))
      → (s : Step) → (Sound P S cfg) s
      → Ensures (G P S cfg) (Fault P S cfg) (go_on P S cfg next s) (λ l'. (Finished P S cfg) l'.run)
  go_on-Finished next h (again l) o = h l o
  go_on-Finished next h (stop l) f = record { at = λ t i. (i, f) }

  limited : (o : Option RunError) → (e : RunError) × (or_limit o ≡ some e)
  limited none = (hit_step_limit, refl)
  limited (some e) = (e, refl)

  rounds-Finished :
      (n step : ℕ) (l : Loop)
      → n + step ≡ cfg.max_steps
      → Open P S cfg l
      → Ensures
          (G P S cfg)
          (Fault P S cfg)
          (rounds P S cfg n step l)
          (λ l'. (Finished P S cfg) l'.run)
  unfolding rounds
  rounds-Finished zero step l e (d, b) = record {
    at = λ t i. (i, (inr (inr (limited l.run.error)), inl d, b));
  }
  rounds-Finished (suc n) step l e (d, b) =
      Ensures-bind (G P S cfg) (Fault P S cfg) (Sound P S cfg)
        (λ (l' : Loop). (Finished P S cfg) l'.run) (round P S cfg step l)
        (go_on P S cfg (rounds P S cfg n (suc step))) (round-Sound step l d (omega (arith, e)))
        (λ s h.
          go_on-Finished (rounds P S cfg n (suc step))
            (λ l' o. rounds-Finished n (suc step) l' (omega (arith, e)) o) s h)

  collapsing-Finished :
      (changed : List Text) (run : AgentRun)
      → (Finished P S cfg) run
      → Ensures (G P S cfg) (Fault P S cfg) (collapsing P S cfg changed run) (Finished P S cfg)
  collapsing-Finished [] run f = record { at = λ t i. ((tt, i), f) }
  collapsing-Finished (path ∷ paths) run f = record { at = λ t i. ((tt, (tt, i)), f) }

  finalize-Finished :
      (l : Loop)
      → (Finished P S cfg) l.run
      → Ensures (G P S cfg) (Fault P S cfg) (finalize P S cfg l) (Finished P S cfg)
  unfolding finalize
  finalize-Finished l f = collapsing-Finished l.run.changed_files _ f

  pub execute-Finished : Ensures (G P S cfg) (Fault P S cfg) (execute P S cfg) (Finished P S cfg)
  unfolding execute
  execute-Finished =
      Ensures-bind (G P S cfg) (Fault P S cfg) (λ (l : Loop). (Finished P S cfg) l.run)
        (Finished P S cfg) (rounds P S cfg cfg.max_steps 0 (start P S cfg)) (finalize P S cfg)
        (rounds-Finished cfg.max_steps 0 (start P S cfg) (omega arith) (refl, omega arith))
        finalize-Finished
