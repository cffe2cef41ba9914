-- ===== src/Tools.antt =====
-- The command line tools src/list_access.cpp, src/verify.cpp and src/create.cpp over the C
-- interface. What `getopt_long` returns and the contents of files are parameters.
pub mod ListAccess
pub mod Options
pub mod Verify
pub mod Create
use scitokens_cpp.Prelude.{ℕ, List, [], ◌∷◌, Str}

-- How a tool ends: with an exit code and the lines that it prints to its standard output, in a loop
-- that is not over, or in undefined behaviour. The usage text and messages to
-- the standard error are left out.
pub data Ending : Type 0 where
  exited : ℕ → List Str → Ending
  still_waiting : Ending
  undefined_ending : Ending
