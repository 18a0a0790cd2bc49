-- ===== src/Routes/Publishing.antt =====
-- src/rsb/eventprocessing/OutRouteConfigurator.cpp: where a published event goes.
use rsb_cpp.Prelude.{ℕ, List, [], ◌∷◌, ◌++◌}

-- A call at a connector writes down its number.
abbrev pub note : ℕ → List ℕ → List ℕ
note c calls = calls ++ c ∷ []
