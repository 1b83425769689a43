-- ===== src/Requests/Options/Defaults.antt =====
-- What the defaults of Requests/Options.antt give.
use ai_models.Prelude.{
  ◌*◌, ◌≡◌, refl, String, true, false, Option, none, some, inl, inr, arith, Bool-cases,
}
use ai_models.Prelude.Text.{is_empty, trim_space, trim_space_idem}
use ai_models.Prelude.Int64.{Int64, add64, lt64}
use ai_models.Lease.{default_executor_lease_duration}
use ai_models.Requests.Options.{
  Options, second, minute, or_text, or_positive, at_least, gate_delay, default_executor_identity,
  gc_timeout_of, apply_default_options,
}

or_text-eq :
    (text default : String)
    → is_empty (trim_space default) ≡ false
    → is_empty (trim_space (or_text text default)) ≡ false
unfolding or_text
or_text-eq text default h = elim (Bool-cases (is_empty (trim_space text))) [
  | inl blank ↦ rw blank h
  | inr filled ↦ rw filled filled
]

or_text_idem :
    (text default : String)
    → is_empty (trim_space default) ≡ false
    → or_text (or_text text default) default ≡ or_text text default
unfolding or_text
or_text_idem text default h = elim (Bool-cases (is_empty (trim_space text))) [
  | inl blank ↦ rw (blank, h)
  | inr filled ↦ rw (filled, filled)
]

or_positive-lt :
    (value default : Int64) → lt64 0 default ≡ true → lt64 0 (or_positive value default) ≡ true
unfolding or_positive
or_positive-lt value default h = ground arith

or_positive_idem :
    (value default : Int64)
    → lt64 0 default ≡ true
    → or_positive (or_positive value default) default ≡ or_positive value default
unfolding or_positive
or_positive_idem value default h = ground arith

at_least_idem : (value least : Int64) → at_least (at_least value least) least ≡ at_least value least
unfolding at_least
at_least_idem value least = ground arith

gate_delay_idem : (value : Int64) → gate_delay (gate_delay value) ≡ gate_delay value
unfolding gate_delay
gate_delay_idem value = ground arith

gate_delay-lt : (value : Int64) → lt64 0 (gate_delay value) ≡ true
unfolding gate_delay
gate_delay-lt value = ground arith

identity_filled :
    (host : Option String) → is_empty (trim_space (default_executor_identity host)) ≡ false
unfolding default_executor_identity
identity_filled none = unfold trim_space in refl
identity_filled (some host) = elim (Bool-cases (is_empty (trim_space host))) [
  | inl blank ↦ rw blank (unfold trim_space in refl)
  | inr filled ↦ rw (filled, trim_space_idem host) filled
]

-- Defaults that are applied twice
pub apply_default_options_idem :
    (host : Option String) (o : Options)
    → apply_default_options host (apply_default_options host o) ≡ apply_default_options host o
unfolding apply_default_options
apply_default_options_idem host o =
    rw
      (
        or_text_idem o.request_label_selector "ai.deckhouse.io/dmcr-gc-request=true"
            (unfold trim_space in refl),
        or_text_idem o.registry_binary "/usr/bin/dmcr" (unfold trim_space in refl),
        or_text_idem o.config_path "/etc/docker/registry/config.yml" (unfold trim_space in refl),
        or_text_idem o.executor_lease_name "dmcr-gc-executor" (unfold trim_space in refl),
        or_text_idem o.executor_identity (default_executor_identity host) (identity_filled host),
        or_text_idem o.maintenance_gate_name "dmcr-gc-maintenance" (unfold trim_space in refl),
        or_text_idem o.maintenance_gate_file "/run/dmcr-maintenance/gate.json"
            (unfold trim_space in refl),
        or_positive_idem o.gc_timeout (10 * minute) refl,
        or_positive_idem o.rescan_interval (5 * second) refl,
        or_positive_idem o.activation_delay (10 * minute) refl,
        or_positive_idem o.completed_request_ttl (60 * minute) refl,
        or_positive_idem o.executor_lease_duration default_executor_lease_duration refl,
        or_positive_idem o.executor_lease_renew_interval (15 * second) refl,
        or_positive_idem o.maintenance_gate_mirror_interval second refl,
        or_positive_idem o.maintenance_gate_ack_quorum 1 refl,
        or_positive_idem o.maintenance_gate_ack_ttl (5 * second) refl,
        at_least_idem o.maintenance_gate_duration (add64 (gc_timeout_of o) minute),
        gate_delay_idem o.maintenance_gate_delay,
      )
      refl

-- Whatever options
pub apply_default_options-positive :
    (host : Option String) (o : Options)
    → (lt64 0 (apply_default_options host o).rescan_interval ≡ true)
      × (lt64 0 (apply_default_options host o).executor_lease_duration ≡ true)
      × (lt64 0 (apply_default_options host o).maintenance_gate_delay ≡ true)
      × (is_empty (trim_space (apply_default_options host o).executor_identity) ≡ false)
      × (is_empty (trim_space (apply_default_options host o).executor_lease_name) ≡ false)
unfolding apply_default_options
apply_default_options-positive host o = (
  or_positive-lt o.rescan_interval (5 * second) refl,
  or_positive-lt o.executor_lease_duration default_executor_lease_duration refl,
  gate_delay-lt o.maintenance_gate_delay,
  or_text-eq o.executor_identity (default_executor_identity host) (identity_filled host),
  or_text-eq o.executor_lease_name "dmcr-gc-executor" (unfold trim_space in refl),
)
