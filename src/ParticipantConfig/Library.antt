-- ===== src/ParticipantConfig/Library.antt =====
-- What the configuration uses of the RSC library and of Boost: rsc::runtime::Properties and
-- boost::lexical_cast.
use rsb_cpp.Prelude.{Bool, Option, Text}

pub record Runtime : Type 1 where
  pub Properties : Type 0
  pub no_properties : Properties
  -- `options[key] = value` and `options.set<string>(key, value)`
  pub assign : Text → Text → Properties → Properties
  -- `getAs<bool>(key, default)`; `none` is an exception
  pub get_bool : Text → Bool → Properties → Option Bool
  -- lexical_cast<string> and lexical_cast<bool>; `none` is bad_lexical_cast
  pub print_bool : Bool → Text
  pub read_bool : Text → Option Bool
