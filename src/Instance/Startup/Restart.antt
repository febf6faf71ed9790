-- ===== src/Instance/Startup/Restart.antt =====
-- An instance that was created, after the process was started again.
use wsapi_app.Common.{
  ℕ, ◌≡◌, refl, sym, ap, ◌∙◌, Bool, true, String, ◌==◌, Option, none, some, [], ◌∷◌, All,
  Bool-cases, inl, inr, eq_iff, eq_false, ne_of_eq_false, arith, if◌then◌else◌, eqb, length,
}
use wsapi_app.Common.Dict.{Dict, lookup, insert, lookup-insert}
use wsapi_app.Config.{InstanceConfig}
use wsapi_app.Event.Types.{Time}
use wsapi_app.Store.Instances.{Row, scan, upsert, save_instance}
use wsapi_app.Store.Instances.RoundTrip.{IsFilter, saved, scan-upsert}
use wsapi_app.Instance.{Manager, Answers, get_instance, apply_defaults, effective_config, to_record}
use wsapi_app.Instance.Lifecycle.{register, create_new, create_instance}
use wsapi_app.Instance.Startup.{record_config, restore_instances}
use wsapi_app.Instance.Lifecycle.Create.{create_registers}
use wsapi_app.Instance.Startup.Restored.{IsTable, restored_from_row}

pub IsTable-insert :
    (id : String) (row : Row) (rows : Dict Row) → IsTable rows → IsTable (insert id row rows)
unfolding insert lookup
IsTable-insert id row [] t = (refl, tt)
IsTable-insert id row ((other, old) ∷ rows) t = elim (Bool-cases (other == id)) [
  | inl e ↦ rw (e, insert) (rw (← (eq_iff other id).0 e) t.0, t.1)
  | inr e ↦
      rw (e, insert)
        (
          rw (lookup-insert, eq_false id other (λ h. ne_of_eq_false other id e (sym h))) t.0,
          IsTable-insert id row rows t.1,
        )
]

create-rows :
    (a : Answers) (id : String) (cfg : InstanceConfig) (m : Manager)
    → (create_instance a id cfg m).0 ≡ none
    → (create_instance a id cfg m).1.rows
      ≡ insert id
          (upsert a.now (to_record id (effective_config m.defaults cfg)) (lookup id m.rows))
          m.rows
unfolding create_instance create_new save_instance to_record register
create-rows a id cfg m h = ground arith

text_twice : (s d : String) → let e = if s == "" then d else s in (if e == "" then d else e) ≡ e
text_twice s d = ground arith

option_twice :
    (o d : Option Bool)
    → let e = elim o as (λ _. Option Bool) [ none ↦ d | some b ↦ some b ] in
      elim e as (λ _. Option Bool) [ none ↦ d | some b ↦ some b ] ≡ e
option_twice none none = refl
option_twice none (some b) = refl
option_twice (some b) d = refl

-- A configuration that was completed once, as a start completes it again.
abbrev pub completed_again : InstanceConfig → InstanceConfig → InstanceConfig
completed_again d cfg = record cfg {
  event_filters = if eqb (length cfg.event_filters) 0 then d.event_filters else cfg.event_filters;
}

apply_defaults-effective :
    (d cfg : InstanceConfig)
    → apply_defaults d (effective_config d cfg) ≡ completed_again d (effective_config d cfg)
unfolding apply_defaults effective_config
apply_defaults-effective d cfg =
    simp
      (
        text_twice cfg.api_key d.api_key,
        text_twice cfg.webhook_url d.webhook_url,
        text_twice cfg.signing_secret d.signing_secret,
        option_twice cfg.history_sync d.history_sync,
        option_twice cfg.publish_events d.publish_events,
      )
      refl

config_of_saved :
    (now : Time) (id : String) (cfg : InstanceConfig) (old : Option Row)
    → record_config (saved now (to_record id cfg) old) ≡ cfg
unfolding to_record
config_of_saved now id cfg none = refl
config_of_saved now id cfg (some row) = refl

config_of_row :
    (now : Time) (id : String) (cfg : InstanceConfig) (old : Option Row)
    → All IsFilter cfg.event_filters
    → record_config (scan id (upsert now (to_record id cfg) old)) ≡ cfg
unfolding to_record
config_of_row now id cfg old f =
    ap record_config (scan-upsert now (to_record id cfg) old f) ∙ config_of_saved now id cfg old

-- An instance that was created, with filters that the column can hold, in a table with one row for
-- each ID. A start with that table, the same defaults, a database that can be read and a service
-- that can be made registers an instance for the ID, with the configuration that the creation gave
-- it, but with the default filters if that configuration has no filters.
pub create-restore :
    (a : Answers) (id : String) (cfg : InstanceConfig) (m started : Manager)
    → (create_instance a id cfg m).0 ≡ none
    → IsTable m.rows
    → All IsFilter (effective_config m.defaults cfg).event_filters
    → (b : String → Answers) → (b id).service_ok ≡ true
    → started.rows ≡ (create_instance a id cfg m).1.rows
    → started.defaults ≡ m.defaults
    → let m' = (restore_instances true b started).1 in
      (p : ℕ) × (get_instance m' id ≡ some p)
      × ((m'.objects p).config ≡ completed_again m.defaults (effective_config m.defaults cfg))
create-restore a id cfg m started h t f b works rows defaults =
    let cfg' = effective_config m.defaults cfg in
    let row = upsert a.now (to_record id cfg') (lookup id m.rows) in
    let table : IsTable started.rows =
      rw (rows, create-rows a id cfg m h) (IsTable-insert id row m.rows t) in
    let here : lookup id started.rows ≡ some row = rw rows ((create_registers a id cfg m h).4) in
    let (p, entry, config, made, service) = restored_from_row b started id row table here works in
    (
      p,
      entry,
      config
          ∙ rw (defaults, config_of_row a.now id cfg' (lookup id m.rows) f)
              (apply_defaults-effective m.defaults cfg),
    )
