-- ===== src/Migrations/Tests.antt =====
-- Runs of the splitting of a script.
use tauri_boilerplate.Base.{◌≡◌, refl, [], ◌∷◌, ◌++◌}
use tauri_boilerplate.Clock.Format.{Text}
use tauri_boilerplate.Clock.Parse.{span}
use tauri_boilerplate.Migrations.Script.{split_sql_script}

-- /*;*/;a';';b
abbrev script : Text
script = b'/' ∷ b'*' ∷ b';' ∷ b'*' ∷ b'/' ∷ b';' ∷ b'a' ∷ 39 ∷ b';' ∷ 39 ∷ b';' ∷ b'b' ∷ []

abbrev statement : Text
statement = b'a' ∷ 39 ∷ b';' ∷ 39 ∷ b';' ∷ []

script_statements : split_sql_script script ≡ statement ∷ (b'b' ∷ []) ∷ []
unfolding split_sql_script span
script_statements = refl

-- create trigger t begin a;end;
abbrev trigger_statement : Text
trigger_statement =
    b'c' ∷ b'r' ∷ b'e' ∷ b'a' ∷ b't' ∷ b'e' ∷ 32 ∷ b't' ∷ b'r' ∷ b'i' ∷ b'g' ∷ b'g' ∷ b'e' ∷ b'r'
    ∷ 32 ∷ b't' ∷ 32 ∷ b'b' ∷ b'e' ∷ b'g' ∷ b'i' ∷ b'n' ∷ 32 ∷ b'a' ∷ b';' ∷ b'e' ∷ b'n' ∷ b'd'
    ∷ b';' ∷ []

trigger_whole :
    split_sql_script (trigger_statement ++ b'b' ∷ b';' ∷ [])
    ≡ trigger_statement ∷ (b'b' ∷ b';' ∷ []) ∷ []
unfolding split_sql_script span
trigger_whole = refl
