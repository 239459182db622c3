-- ===== src/Runtime.antt =====
-- include/return_codes.h, and what every function of the program can do besides returning: a
-- `return_code_t` other than SUCCESS, or a step whose behaviour C leaves undefined.
pub mod Gives
use theblockchainkiller.Base.{Bool, true, false}

pub data ReturnCode : Type 0 where
  success could_not_malloc invalid_input linked_list_empty : ReturnCode
  linked_list_no_compare_function could_not_find_valid_proof_of_work : ReturnCode
  invalid_command_line_args openssl_function file_io signature_too_long : ReturnCode
  buffer_too_small invalid_blockchain pthread_function stopped_early : ReturnCode
  longer_blockchain_detected network_function invalid_command_prefix : ReturnCode
  invalid_command invalid_command_len sleep : ReturnCode

-- `ok` carries what a function that returns SUCCESS has written through its pointers. `err`
-- carries the code of a failure. `fault` is undefined behaviour, such as a read out of bounds.
pub data Outcome {u} (A : Type u) : Type u where
  fault : Outcome A
  err : ReturnCode → Outcome A
  ok : A → Outcome A

infixl 5 ◌>>=◌ ◌>>◌
-- The next call of a function, which is made only after a SUCCESS.
abbrev pub ◌>>=◌ {u v} : {A : Type u} {B : Type v} → Outcome A → (A → Outcome B) → Outcome B
fault >>= next = fault
err code >>= next = err code
ok a >>= next = next a

-- `if (!test) { return_code = code; goto end; }`
abbrev pub guard : Bool → ReturnCode → Outcome (Unit {0})
guard false code = err code
guard true code = ok tt

abbrev pub ◌>>◌ {u} : {B : Type u} → Outcome (Unit {0}) → Outcome B → Outcome B
call >> next = call >>= λ _. next
