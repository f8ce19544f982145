-- ===== src/Names.antt =====
-- The names of flows and of schedules: `ValidateFlowName` of internal/registry/registry.go and
-- `ValidateScheduleName` of internal/scheduler/schedule.go, with their pattern
-- `^[a-zA-Z0-9_-]+$`.
pub mod Safe
use yafe.Prelude.{ℕ, Bool, true, false, ◌&&◌, ◌||◌, [], ◌∷◌, not, leb, ◌==◌, if◌then◌else◌}
use yafe.Text.{Text, is_empty, trim_space}
use yafe.Result.{Error, Result, ok, err, invalid_flow_name, invalid_schedule_name}

unfoldable pub is_name_char : ℕ → Bool
is_name_char c =
    (leb b'a' c && leb c b'z')
    || (leb b'A' c && leb c b'Z')
    || (leb b'0' c && leb c b'9')
    || (c == b'_')
    || (c == b'-')

all_name_chars : Text → Bool
unfolding is_name_char
all_name_chars [] = true
all_name_chars (c ∷ s) = is_name_char c && all_name_chars s

-- `flowNamePattern.MatchString` and `scheduleNamePattern.MatchString`.
unfoldable pub matches_name : Text → Bool
unfolding all_name_chars is_empty
matches_name s = not (is_empty s) && all_name_chars s

validate_name : Error → Text → Result (Unit {0})
validate_name e name =
    let trimmed = trim_space name in
    if is_empty trimmed then err e else if matches_name trimmed then ok tt else err e

unfoldable pub validate_flow_name : Text → Result (Unit {0})
unfolding validate_name
validate_flow_name name = validate_name invalid_flow_name name

unfoldable pub validate_schedule_name : Text → Result (Unit {0})
unfolding validate_name
validate_schedule_name name = validate_name invalid_schedule_name name
