-- ===== src/Api.antt =====
-- The C functions of src/scitokens.cpp, over the classes. A pointer that may be null is an
-- `Option`, a handle is the object behind it, and a C string has no byte 0 inside. That `strdup`
-- and `malloc` fail is not modelled.
pub mod Tokens
pub mod Trust
pub mod Serialized
pub mod Async
pub mod Memory
use scitokens_cpp.Prelude.{List, Option, none, some, Str, Result, ok, throw, undefined, what, until}
use scitokens_cpp.Exec.{Exec}

-- What a call answers: 0 with its outputs, or -1 with the text in `*err_msg`.
pub data Reply (A : Type 0) : Type 0 where
  success : A → Reply A
  failure : Str → Reply A
  failure_without_message : Reply A
  undefined_behaviour : Reply A

-- `catch (std::exception &exc)` around a call.
abbrev pub reply : {A : Type 0} → Result A → Reply A
reply (ok a) = success a
reply (throw e) = failure (what e)
reply undefined = undefined_behaviour

abbrev pub map_reply : {A B : Type 0} → (A → B) → Reply A → Reply B
map_reply f (success a) = success (f a)
map_reply f (failure msg) = failure msg
map_reply f failure_without_message = failure_without_message
map_reply f undefined_behaviour = undefined_behaviour

-- `strdup(text.c_str())`, which ends at the first byte 0.
abbrev pub c_str : Str → Str
c_str s = until 0 s

-- A call on the object behind a handle.
abbrev pub Call : Type 0 → Type 0 → Type 0
Call T A = Option T → Reply A × Option T

abbrev pub on_object : {T A : Type 0} → Exec T A → T → Reply A × Option T
on_object m t = (reply (m t).0, some (m t).1)

-- A call that does nothing but answer.
abbrev pub answer : {T A : Type 0} → Reply A → Call T A
answer r t = (r, t)
