-- ===== src/Migrations/Script.antt =====
-- `splitSqlScript` of packages/database/src/migrations/SqlScript.ts. A text is the list of its code
-- units, and the slice from `start` to `index` is carried along as `piece`.
use tauri_boilerplate.Base.{
  ℕ, zero, suc, ◌+◌, ◌-◌, List, [], ◌∷◌, ◌++◌, Bool, true, false, ◌&&◌, ◌||◌, not, ltb, leb, ◌==◌,
  nat_eq, if◌then◌else◌, length, take, is_space,
}
use tauri_boilerplate.Clock.Format.{Text}
use tauri_boilerplate.Clock.Parse.{span}

-- inLineComment, inBlockComment and quoteEnd, of which one at most is set
pub data Mode : Type 0 where
  normal line_comment block_comment : Mode
  quoted : ℕ → Mode

-- statementHead, isTrigger, inTriggerBody and caseDepth
pub record Words : Type 0 where
  pub head : List Text
  pub is_trigger : Bool
  pub in_body : Bool
  pub case_depth : ℕ

pub record Scan : Type 0 where
  pub piece : Text
  pub mode : Mode
  pub has_token : Bool
  pub words : Words

-- resetStatement
abbrev pub fresh : Scan
fresh = record {
  piece = [];
  mode = normal;
  has_token = false;
  words = record { head = []; is_trigger = false; in_body = false; case_depth = 0 };
}

abbrev pub text_eq : Text → Text → Bool
text_eq [] [] = true
text_eq [] (d ∷ u) = false
text_eq (c ∷ t) [] = false
text_eq (c ∷ t) (d ∷ u) = c == d && text_eq t u

abbrev create : Text
create = b'C' ∷ b'R' ∷ b'E' ∷ b'A' ∷ b'T' ∷ b'E' ∷ []

abbrev trigger : Text
trigger = b'T' ∷ b'R' ∷ b'I' ∷ b'G' ∷ b'G' ∷ b'E' ∷ b'R' ∷ []

abbrev temp : Text
temp = b'T' ∷ b'E' ∷ b'M' ∷ b'P' ∷ []

abbrev temporary : Text
temporary = b'T' ∷ b'E' ∷ b'M' ∷ b'P' ∷ b'O' ∷ b'R' ∷ b'A' ∷ b'R' ∷ b'Y' ∷ []

abbrev begin : Text
begin = b'B' ∷ b'E' ∷ b'G' ∷ b'I' ∷ b'N' ∷ []

abbrev case_word : Text
case_word = b'C' ∷ b'A' ∷ b'S' ∷ b'E' ∷ []

abbrev end_word : Text
end_word = b'E' ∷ b'N' ∷ b'D' ∷ []

-- `word.toUpperCase()`, of `[A-Za-z0-9_]` only
abbrev pub upper : Text → Text
upper [] = []
upper (c ∷ t) = (if leb b'a' c && leb c b'z' then c - 32 else c) ∷ upper t

abbrev pub is_create_trigger : List Text → Bool
is_create_trigger [] = false
is_create_trigger (a ∷ []) = false
is_create_trigger (a ∷ b ∷ []) = text_eq a create && text_eq b trigger
is_create_trigger (a ∷ b ∷ c ∷ ws) =
    (text_eq a create && text_eq b trigger)
    || (text_eq a create && (text_eq b temp || text_eq b temporary) && text_eq c trigger)

abbrev pub note_head : Text → Words → Words
note_head word w =
    if not w.in_body && ltb (length w.head) 3
    then (let head = w.head ++ word ∷ [] in
        record w { head = head; is_trigger = is_create_trigger head })
    else w

abbrev pub note_keyword : Text → Words → Words
note_keyword word w =
    if not w.is_trigger
    then w
    else if not w.in_body && text_eq word begin
    then record w { in_body = true }
    else if w.in_body && text_eq word case_word
    then record w { case_depth = w.case_depth + 1 }
    else if w.in_body && text_eq word end_word
    then (if ltb 0 w.case_depth
        then record w { case_depth = w.case_depth - 1 }
        else record w { in_body = false })
    else w

unfoldable pub record_word : Text → Words → Words
record_word word w = let normalized = upper word in note_keyword normalized (note_head normalized w)

-- `/[A-Za-z_]/`
abbrev pub is_letter : ℕ → Bool
is_letter c = (leb b'A' c && leb c b'Z') || (leb b'a' c && leb c b'z') || c == b'_'

-- `/[A-Za-z0-9_]/`
abbrev pub is_word : ℕ → Bool
is_word c = is_letter c || (leb b'0' c && leb c b'9')

abbrev pub is_newline : ℕ → Bool
is_newline c = c == 10 || c == 13

-- `next === c`
abbrev pub next_is : ℕ → Text → Bool
next_is c [] = false
next_is c (d ∷ t) = d == c

abbrev pub drop_one : Text → Text
drop_one [] = []
drop_one (c ∷ t) = t

-- What stands at the index outside comments and quotes: the guards in the order of the loop.
pub data Token : Type 0 where
  line_open block_open semicolon word space other : Token
  quote : ℕ → Token

unfoldable pub token_at : Bool → ℕ → Text → Token
token_at in_body c cs =
    if c == b'-' && next_is b'-' cs
    then line_open
    else if c == b'/' && next_is b'*' cs
    then block_open
    else if c == 39 || c == 34 || c == 96
    then quote c
    else if c == b'['
    then quote b']'
    else if c == b';' && not in_body
    then semicolon
    else if is_letter c
    then word
    else if is_space c
    then space
    else other

-- An iteration goes on at `rest`, or ends the statement behind the current character.
pub data Step : Type 0 where
  move : Scan → (rest : Text) → Step
  cut : Step

abbrev pub pass : Mode → Text → Scan → Scan
pass mode consumed s = record s { piece = s.piece ++ consumed; mode = mode }

abbrev pub pass_token : Mode → Text → Scan → Scan
pass_token mode consumed s = record s { piece = s.piece ++ consumed; mode = mode; has_token = true }

unfoldable pub step_token : Token → Scan → ℕ → Text → Step
unfolding record_word
step_token line_open s c cs = move (pass line_comment (c ∷ take 1 cs) s) (drop_one cs)
step_token block_open s c cs = move (pass block_comment (c ∷ take 1 cs) s) (drop_one cs)
step_token semicolon s c cs = cut
step_token word s c cs =
    let (run, rest) = span is_word cs in
    let s' = pass_token normal (c ∷ run) s in
    move (record s' { words = record_word (c ∷ run) s.words }) rest
step_token space s c cs = move (pass normal (c ∷ []) s) cs
step_token other s c cs = move (pass_token normal (c ∷ []) s) cs
step_token (quote q) s c cs = move (pass_token (quoted q) (c ∷ []) s) cs

unfoldable pub step_in : Mode → Scan → ℕ → Text → Step
unfolding token_at step_token
step_in normal s c cs = step_token (token_at s.words.in_body c cs) s c cs
step_in line_comment s c cs =
    if is_newline c
    then move (pass normal (c ∷ []) s) cs
    else move (pass line_comment (c ∷ []) s) cs
step_in block_comment s c cs =
    if c == b'*' && next_is b'/' cs
    then move (pass normal (c ∷ take 1 cs) s) (drop_one cs)
    else move (pass block_comment (c ∷ []) s) cs
step_in (quoted q) s c cs =
    if c == q
    then (if next_is q cs && not (q == b']')
        then move (pass (quoted q) (c ∷ take 1 cs) s) (drop_one cs)
        else move (pass normal (c ∷ []) s) cs)
    else move (pass (quoted q) (c ∷ []) s) cs

-- `if (hasSqlToken) statements.push(...)`
abbrev pub push_statement : Bool → Text → List Text → List Text
push_statement has_token piece statements = if has_token then piece ∷ statements else statements

-- The loop. An iteration consumes a character at least, so the script's length is enough fuel.
unfoldable pub scan : ℕ → Scan → Text → List Text
unfolding step_in
scan n s [] = push_statement s.has_token s.piece []
scan zero s (c ∷ cs) = []
scan (suc n) s (c ∷ cs) = elim (step_in s.mode s c cs) [
  | move s' rest ↦ scan n s' rest
  | cut ↦ push_statement s.has_token (s.piece ++ c ∷ []) (scan n fresh cs)
]

unfoldable pub split_sql_script : Text → List Text
unfolding scan
split_sql_script script = scan (length script) fresh script
