-- ===== src/Database/Tests.antt =====
-- Transactions on a database that is a list of numbers: a statement adds its number, and 0 is refused.
use tauri_boilerplate.Base.{
  ℕ, ◌≡◌, refl, Option, List, [], ◌∷◌, Result, ok, err, ◌==◌, nat_eq, if◌then◌else◌, length, String,
  ltb, true,
}
use tauri_boilerplate.Database.Client.{
  Callback, finish, throw, query, execute, savepoint, Engine, collect, native_transaction,
  memory_transaction,
}
use tauri_boilerplate.Database.Agreement.{SameOutcome, native-agrees}

abbrev numbers : Engine ℕ ℕ (List ℕ) String
numbers = record {
  Database = List ℕ;
  write = λ q s. if q == 0 then err "constraint" else ok (length s, q ∷ s);
  read = λ q s. ok s;
  admits = λ ops. ltb (length ops) 1001;
  refusal = "db_input_limit";
}

abbrev rethrow_count :
    Callback ℕ ℕ (List ℕ) String → Result String (Option ℕ) → Callback ℕ ℕ (List ℕ) String
rethrow_count p (ok n) = p
rethrow_count p (err e) = throw e

abbrev rethrow_value : Callback ℕ ℕ (List ℕ) String → Result String ℕ → Callback ℕ ℕ (List ℕ) String
rethrow_value p (ok n) = p
rethrow_value p (err e) = throw e

abbrev rethrow_rows :
    Callback ℕ ℕ (List ℕ) String → Result String (List ℕ) → Callback ℕ ℕ (List ℕ) String
rethrow_rows p (ok n) = p
rethrow_rows p (err e) = throw e

-- One write, and one in a savepoint.
abbrev writing : Callback ℕ ℕ (List ℕ) String
writing =
    execute 1
      (rethrow_count (savepoint (execute 2 (rethrow_count (finish 7))) (rethrow_value (finish 9))))

writing_native : native_transaction numbers "no reads" (λ e. e) writing [] ≡ (ok 9, 2 ∷ 1 ∷ [])
unfolding native_transaction
writing_native = refl

writing_fits :
    (v : ℕ) (ops : List ℕ) → collect "no reads" writing ≡ ok (v, ops) → ltb (length ops) 1001 ≡ true
unfolding collect
writing_fits v ops h = cc

native-agrees_example :
    SameOutcome numbers
      (native_transaction numbers "no reads" (λ e. e) writing [])
      (memory_transaction numbers writing [])
native-agrees_example =
    native-agrees numbers "no reads" (λ e. e) writing []
      (λ n. refl, λ e. refl, ((λ n. refl, λ e. refl, tt), λ e. refl, λ v. tt)) writing_fits

-- A write, and then a read.
abbrev reading : Callback ℕ ℕ (List ℕ) String
reading = execute 1 (rethrow_count (query 0 (rethrow_rows (finish 5))))

reading_memory : memory_transaction numbers reading [] ≡ (ok 5, 1 ∷ [])
unfolding memory_transaction
reading_memory = refl
