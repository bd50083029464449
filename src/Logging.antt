-- ===== src/Logging.antt =====
-- common/pkg/log/vk.go: the logger that is given to Virtual Kubelet.
pub mod Entries
use supernetes.Prelude.{
  String, List, [], ◌∷◌, ◌++◌, Bool, true, false, ◌&&◌, ◌||◌, Option, none, some, if◌then◌else◌,
  string_eq,
}
use supernetes.Prelude.Dict.{Dict, insert}

-- `VKLoggerConfig`
pub record Config : Type 0 where
  pub clamp_to_debug : Bool
  pub suppress_ctx_canceled : Bool

-- `vkLogger`, without the logger underneath; a nil map or slice is empty.
pub record VkLogger (E V : Type 0) : Type 0 where
  pub fields : Dict String V
  pub errors : List E
  pub config : Config

pub data Level : Type 0 where
  debug info warn error fatal : Level

-- how the errors of an entry are shown
pub data Shown (E : Type 0) : Type 0 where
  no_error : Shown E
  one_error : E → Shown E
  several_errors : List E → Shown E

-- an event that is written
pub record Entry (E V : Type 0) : Type 0 where
  pub level : Level
  pub fields : Dict String V
  pub errors : Shown E
  pub text : String

-- the loop of WithFields
unfoldable pub insert_all : {V : Type 0} → Dict String V → Dict String V → Dict String V
unfolding insert
insert_all [] fields = fields
insert_all ((key, value) ∷ more) fields = insert_all more (insert key value fields)

unfoldable pub shown : {E : Type 0} → List E → Shown E
shown [] = no_error
shown (err ∷ []) = one_error err
shown (err ∷ err' ∷ errs) = several_errors (err ∷ err' ∷ errs)

unfoldable pub contains_canceled : {E : Type 0} → (E → Bool) → List E → Bool
contains_canceled is_canceled [] = false
contains_canceled is_canceled (err ∷ errs) = is_canceled err || contains_canceled is_canceled errs

module _ {E V : Type 0} where
  -- `VKLogger`
  unfoldable pub vk_logger : Config → VkLogger E V
  vk_logger config = record { fields = []; errors = []; config = config }

  unfoldable pub with_field : String → V → VkLogger E V → VkLogger E V
  unfolding insert
  with_field key value v = record v { fields = insert key value v.fields }

  unfoldable pub with_fields : Dict String V → VkLogger E V → VkLogger E V
  unfolding insert_all
  with_fields fields v = record v { fields = insert_all fields v.fields }

  unfoldable pub with_error : E → VkLogger E V → VkLogger E V
  with_error err v = record v { errors = v.errors ++ err ∷ [] }

  -- `is_canceled` is whether an error is context.Canceled.
  module _ (is_canceled : E → Bool) where
    -- `msg`: nothing where the event is discarded
    unfoldable pub msg : Level → String → VkLogger E V → Option (Entry E V)
    unfolding shown contains_canceled
    msg level text v =
        if v.config.suppress_ctx_canceled && contains_canceled is_canceled v.errors
        then none
        else some
            (record { level = level; fields = v.fields; errors = shown v.errors; text = text })

    -- Debug, Info, Warn, Error and Fatal, after the formatting of the text
    unfoldable pub print : Level → String → VkLogger E V → Option (Entry E V)
    unfolding msg
    print info text v = if v.config.clamp_to_debug then msg debug text v else msg info text v
    print debug text v = msg debug text v
    print warn text v = msg warn text v
    print error text v = msg error text v
    print fatal text v = msg fatal text v
