-- ===== src/Health/Ready.antt =====
-- When the service says that it is ready.
use mathlib.Core.Path.{refl}
use as_baptist_api.Prelude.{true, false, ℕ, ◌≡◌, ◌⊎◌, inl, inr, String}
use as_baptist_api.Problem.{Request, JsonResponse, internal_error}
use as_baptist_api.Health.{
  Ping, answered, sqlalchemy_error, timeout_error, os_error, other_error, StateProbe, unset,
  not_callable, database_check, other_check, returned, raised, readiness_probe, ready, ready_,
  failed, ReadyReply,
}

-- A reply that the service is not ready.
abbrev pub IsUnavailable : ReadyReply → Type 0
IsUnavailable reply =
    (j : JsonResponse) × (reply ≡ failed j)
    × (j.status_code ≡ 503)
    × (j.content.status ≡ 503)
    × (j.content.code ≡ internal_error)
    × (j.content.detail ≡ "The database is not ready.")

-- The probes that say yes: the database's where the database answers, and another that returns true.
abbrev pub SaysReady : StateProbe → Ping → Type 0
SaysReady state ping =
    ((state ≡ database_check) × (ping ≡ answered)) ⊎ (state ≡ other_check (returned true))

-- The service says that it is ready exactly where its probe is the database's and the database
-- answers, or a function set in its place that returns true. In every other case, no probe and an
-- exception of any kind in the probe included, the client gets a problem response of status 503 that
-- says that the database is not ready.
pub ready-cases :
    (str_index : ℕ → String) (r : Request) (state : StateProbe) (ping : Ping)
    → ((ready str_index r (readiness_probe state ping) ≡ ready_ (record { status = "ready" }))
        × SaysReady state ping)
      ⊎ (IsUnavailable (ready str_index r (readiness_probe state ping))
          × (SaysReady state ping → ⊥))
unfolding ready readiness_probe
ready-cases f r unset ping =
    inr
      ((_, refl, refl, refl, refl, refl), λ s. elim s [ inl h ↦ absurd (cc (h.0)) | inr h ↦ cc h ])
ready-cases f r not_callable ping =
    inr
      ((_, refl, refl, refl, refl, refl), λ s. elim s [ inl h ↦ absurd (cc (h.0)) | inr h ↦ cc h ])
ready-cases f r database_check answered = inl (refl, inl (refl, refl))
ready-cases f r database_check sqlalchemy_error =
    inr ((_, refl, refl, refl, refl, refl), λ s. elim s [ inl h ↦ cc (h.1) | inr h ↦ cc h ])
ready-cases f r database_check timeout_error =
    inr ((_, refl, refl, refl, refl, refl), λ s. elim s [ inl h ↦ cc (h.1) | inr h ↦ cc h ])
ready-cases f r database_check os_error =
    inr ((_, refl, refl, refl, refl, refl), λ s. elim s [ inl h ↦ cc (h.1) | inr h ↦ cc h ])
ready-cases f r database_check other_error =
    inr ((_, refl, refl, refl, refl, refl), λ s. elim s [ inl h ↦ cc (h.1) | inr h ↦ cc h ])
ready-cases f r (other_check (returned true)) ping = inl (refl, inr refl)
ready-cases f r (other_check (returned false)) ping =
    inr ((_, refl, refl, refl, refl, refl), other_no)
  where
    other_no : SaysReady (other_check (returned false)) ping → ⊥
    other_no (inl h) = cc (h.0)
    other_no (inr h) = cc h
ready-cases f r (other_check raised) ping =
    inr ((_, refl, refl, refl, refl, refl), λ s. elim s [ inl h ↦ cc (h.0) | inr h ↦ cc h ])
