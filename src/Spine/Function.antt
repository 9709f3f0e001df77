-- ===== src/Spine/Function.antt =====
-- The functions of a feature: src/spine/function/function.c and src/spine/feature/operations.c. The
-- data is a number that stands for it; writing and deleting it, src/common/eebus_data, is a record of
-- functions, which return what is left of the data too when they fail. Copies do not fail.
use openeebus.Prelude.{
  ℕ, ◌==◌, if◌then◌else◌, Bool, true, false, ◌&&◌, Option, none, some, List, [], ◌∷◌,
}
use openeebus.Common.Error.{EebusError}
use openeebus.Spine.Message.{Content, Cmd}

-- `Operations`.
pub record Operations : Type 0 where
  pub read : Bool
  pub read_partial : Bool
  pub write : Bool
  pub write_partial : Bool

-- `Function`.
pub record Function : Type 0 where
  pub function_type : ℕ
  pub content : ℕ
  pub operations : Option Operations

-- `EEBUS_DATA_WRITE`, `EEBUS_DATA_WRITE_PARTIAL` and `EEBUS_DATA_DELETE_PARTIAL` for the data of a
-- function type. A filter is a number.
pub record DataAccess : Type 0 where
  pub write_all : ℕ → Option Content → ℕ × EebusError
  pub write_partial : ℕ → ℕ → Option Content → ℕ → ℕ × EebusError
  pub delete_partial : ℕ → ℕ → ℕ → ℕ

-- `SetOperations`: only the first call has an effect.
abbrev or_set : Option Operations → Operations → Option Operations
or_set none ops = some ops
or_set (some old) ops = some old

unfoldable pub set_operations : Function → Operations → Function
set_operations f ops = record f { operations = or_set f.operations ops }

-- `CreateReadCmd`, `CreateReplyCmd` and `CreateNotifyCmd`; a read command has an empty content, 0.
unfoldable pub create_read_cmd : Function → Option ℕ → Cmd
create_read_cmd f filter_partial = record {
  data_choice = some (Content.function_data 0);
  data_choice_type_id = f.function_type;
  filter_partial = filter_partial;
  filter_delete = none;
}

unfoldable pub create_reply_cmd : Function → Cmd
create_reply_cmd f = record {
  data_choice = some (Content.function_data f.content);
  data_choice_type_id = f.function_type;
  filter_partial = none;
  filter_delete = none;
}

unfoldable pub create_notify_cmd : Function → Option Content → Option ℕ → Option ℕ → Cmd
create_notify_cmd f new filter_partial filter_delete = record {
  data_choice = new;
  data_choice_type_id = f.function_type;
  filter_partial = filter_partial;
  filter_delete = filter_delete;
}

module _ (access : DataAccess) where
  abbrev stored : Function → ℕ × EebusError → Function × EebusError
  stored f (content, err) = (record f { content = content }, err)

  abbrev after_delete : Function → Option ℕ → Function
  after_delete f none = f
  after_delete f (some filter) = record f {
    content = access.delete_partial f.function_type f.content filter;
  }

  abbrev then_partial : Function → Option Content → Option ℕ → Function × EebusError
  then_partial f new none = (f, EebusError.ok)
  then_partial f new (some filter) =
      stored f (access.write_partial f.function_type f.content new filter)

  abbrev absent : Option ℕ → Bool
  absent none = true
  absent (some _) = false

  -- `UpdateData`; without `persist` and without filters it changes nothing.
  unfoldable pub update_data :
      Function → Option Content → Option ℕ → Option ℕ → Bool → Function × EebusError
  update_data f new filter_partial filter_delete persist =
      if absent filter_partial && (absent filter_delete && persist)
      then stored f (access.write_all f.function_type new)
      else then_partial (after_delete f filter_delete) new filter_partial

-- `FeatureGetFunction`, and the functions with one of them replaced.
unfoldable pub get_function : List Function → ℕ → Option Function
get_function [] t = none
get_function (f ∷ fs) t =
    let rest = get_function fs t in if f.function_type == t then some f else rest

unfoldable pub put_function : List Function → ℕ → Function → List Function
put_function [] t g = []
put_function (f ∷ fs) t g = if f.function_type == t then g ∷ fs else f ∷ put_function fs t g
