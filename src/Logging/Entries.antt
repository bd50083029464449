-- ===== src/Logging/Entries.antt =====
-- Which entries a derived logger writes, and what they hold.
use supernetes.Prelude.{
  String, List, [], ◌∷◌, ◌++◌, Bool, true, false, ◌&&◌, ◌≡◌, refl, sym, ap, ◌∙◌, Option, none, some,
  if◌then◌else◌, ◌==◌, string_eq, arith, append_assoc, append-nil, Bool-cases, inl, inr,
}
use supernetes.Prelude.Dict.{Dict, lookup, insert, lookup-insert}
use supernetes.Logging.{
  Config, VkLogger, Level, debug, info, warn, error, fatal, Entry, vk_logger, with_field,
  insert_all, with_fields, with_error, shown, contains_canceled, msg, print,
}

-- the calls by which Virtual Kubelet derives one logger from another
pub data With (E V : Type 0) : Type 0 where
  field : String → V → With E V
  fields : Dict String V → With E V
  err : E → With E V

-- the level that is written
abbrev pub clamped : Bool → Level → Level
clamped clamp debug = debug
clamped clamp info = if clamp then debug else info
clamped clamp warn = warn
clamped clamp error = error
clamped clamp fatal = fatal

-- the last of several values, after an earlier one
abbrev pub last_in : {V : Type 0} → String → Dict String V → Option V → Option V
last_in key [] earlier = earlier
last_in key ((k, value) ∷ more) earlier =
    last_in key more (if k == key then some value else earlier)

lookup-insert_all :
    {V : Type 0} (key : String) (more d : Dict String V)
    → lookup key (insert_all more d) ≡ last_in key more (lookup key d)
unfolding insert_all
lookup-insert_all key [] d = refl
lookup-insert_all key ((k, value) ∷ more) d =
    lookup-insert_all key more (insert k value d)
    ∙ ap (last_in key more) (lookup-insert k key value d)

module _ {E V : Type 0} where
  abbrev pub derive : List (With E V) → VkLogger E V → VkLogger E V
  derive [] v = v
  derive (field key value ∷ calls) v = derive calls (with_field key value v)
  derive (fields more ∷ calls) v = derive calls (with_fields more v)
  derive (err e ∷ calls) v = derive calls (with_error e v)

  abbrev pub errors_of : List (With E V) → List E
  errors_of [] = []
  errors_of (field key value ∷ calls) = errors_of calls
  errors_of (fields more ∷ calls) = errors_of calls
  errors_of (err e ∷ calls) = e ∷ errors_of calls

  abbrev pub last_of : String → List (With E V) → Option V → Option V
  last_of key [] earlier = earlier
  last_of key (field k value ∷ calls) earlier =
      last_of key calls (if k == key then some value else earlier)
  last_of key (fields more ∷ calls) earlier = last_of key calls (last_in key more earlier)
  last_of key (err e ∷ calls) earlier = last_of key calls earlier

  lookup-derive :
      (key : String) (calls : List (With E V)) (v : VkLogger E V)
      → lookup key (derive calls v).fields ≡ last_of key calls (lookup key v.fields)
  unfolding with_field with_fields with_error
  lookup-derive key [] v = refl
  lookup-derive key (field k value ∷ calls) v =
      lookup-derive key calls (with_field k value v)
      ∙ ap (last_of key calls) (lookup-insert k key value v.fields)
  lookup-derive key (fields more ∷ calls) v =
      lookup-derive key calls (with_fields more v)
      ∙ ap (last_of key calls) (lookup-insert_all key more v.fields)
  lookup-derive key (err e ∷ calls) v = lookup-derive key calls (with_error e v)

  errors-derive :
      (calls : List (With E V)) (v : VkLogger E V)
      → (derive calls v).errors ≡ v.errors ++ errors_of calls
  unfolding with_field with_fields with_error
  errors-derive [] v = sym (append-nil v.errors)
  errors-derive (field k value ∷ calls) v = errors-derive calls (with_field k value v)
  errors-derive (fields more ∷ calls) v = errors-derive calls (with_fields more v)
  errors-derive (err e ∷ calls) v =
      errors-derive calls (with_error e v) ∙ append_assoc v.errors (e ∷ []) (errors_of calls)

  config-derive : (calls : List (With E V)) (v : VkLogger E V) → (derive calls v).config ≡ v.config
  unfolding with_field with_fields with_error
  config-derive [] v = refl
  config-derive (field k value ∷ calls) v = config-derive calls (with_field k value v)
  config-derive (fields more ∷ calls) v = config-derive calls (with_fields more v)
  config-derive (err e ∷ calls) v = config-derive calls (with_error e v)

  module _ (is_canceled : E → Bool) where
    print-msg :
        (level : Level) (text : String) (v : VkLogger E V)
        → print is_canceled level text v
          ≡ msg is_canceled (clamped v.config.clamp_to_debug level) text v
    unfolding print
    print-msg debug text v = refl
    print-msg info text v = elim (Bool-cases v.config.clamp_to_debug) [
      | inl y ↦ rw (y, print) refl
      | inr n ↦ rw (n, print) refl
    ]
    print-msg warn text v = refl
    print-msg error text v = refl
    print-msg fatal text v = refl

    -- what is written by a logger after some calls
    abbrev pub Writes : Config → List (With E V) → Level → String → Option (Entry E V) → Type 0
    Writes config calls level text none =
        (config.suppress_ctx_canceled ≡ true)
        × (contains_canceled is_canceled (errors_of calls) ≡ true)
    Writes config calls level text (some entry) =
        ((config.suppress_ctx_canceled && contains_canceled is_canceled (errors_of calls)) ≡ false)
        × (entry.level ≡ clamped config.clamp_to_debug level)
        × (entry.text ≡ text)
        × (entry.errors ≡ shown (errors_of calls))
        × ((key : String) → lookup key entry.fields ≡ last_of key calls none)

    msg-Writes :
        (discarded : Bool) (config : Config) (calls : List (With E V)) (level : Level)
        (text : String) (v : VkLogger E V)
        → (config.suppress_ctx_canceled && contains_canceled is_canceled (errors_of calls))
          ≡ discarded
        → v.errors ≡ errors_of calls
        → ((key : String) → lookup key v.fields ≡ last_of key calls none)
        → Writes config calls level text (
            if discarded
            then none
            else some (record {
              level = clamped config.clamp_to_debug level;
              fields = v.fields;
              errors = shown v.errors;
              text = text;
            }))
    msg-Writes true config calls level text v both errs looks =
        (ground (arith, both), ground (arith, both))
    msg-Writes false config calls level text v both errs looks =
        (both, refl, refl, ap shown errs, looks)

    -- A logger for Virtual Kubelet that was derived by any calls of WithField, WithFields and
    -- WithError writes nothing exactly if suppression is configured and one of its errors is the
    -- cancellation of a context. Otherwise it writes one entry, with the level asked for, or Debug
    -- instead of Info if that is configured, all its errors in order, and for each key the value
    -- that was given last.
    print-Writes :
        (config : Config) (calls : List (With E V)) (level : Level) (text : String)
        → Writes config calls level text
            (print is_canceled level text (derive calls (vk_logger config)))
    unfolding vk_logger msg lookup
    print-Writes config calls level text =
        let v = derive calls (vk_logger config) in
        let errs = errors-derive calls (vk_logger config) in
        let same = config-derive calls (vk_logger config) in
        rw (print-msg level text v, same, errs)
          (msg-Writes
            (config.suppress_ctx_canceled && contains_canceled is_canceled (errors_of calls)) config
            calls level text (record v { errors = errors_of calls }) refl refl
            (λ key. lookup-derive key calls (vk_logger config)))
