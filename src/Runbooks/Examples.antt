-- ===== src/Runbooks/Examples.antt =====
-- The runbook check on one alert and its page.
use snts_collectmind.Prelude.{
  ℕ, Bool, true, Option, some, List, [], ◌∷◌, Text, codes, is_digit, is_lower, is_upper, ◌||◌, ◌↔◌,
  ◌≡◌, refl, starts_with, text_eq, split,
}
use snts_collectmind.Runbooks.{
  Group, Entry, check, alert_errors, find_orphan_runbooks, iter_alerts, resolve_runbook_target,
  name_of, contains, after_first, before, last_segment, has_section_from, after_hashes,
  after_spaces,
}
use snts_collectmind.Runbooks.Complete.{IsComplete, check-IsComplete}

abbrev is_word : ℕ → Bool
is_word c = is_lower c || is_upper c || is_digit c

abbrev read : Text → Option Text
read path = some (codes "# Symptoms\n## Dashboard\n## Mitigation\n## Escalation\n")

abbrev the_groups : List Group
the_groups =
    record {
      name = "redis";
      rules =
          record {
            alert = some "RedisDown";
            runbook_url = some (codes "https://host/observability/runbooks/redis.md?plain=1");
            summary = some (codes "Redis is down");
          }
          ∷ [];
    }
    ∷ []

abbrev the_entries : List Entry
the_entries = record { name = codes "redis.md"; is_file = true } ∷ []

check-IsComplete_example :
    (check is_word read (some the_groups) the_entries [] ≡ [])
    ↔ IsComplete is_word read (some the_groups) the_entries []
check-IsComplete_example = check-IsComplete is_word read (some the_groups) the_entries []

passes : check is_word read (some the_groups) the_entries [] ≡ []
unfolding check alert_errors find_orphan_runbooks iter_alerts resolve_runbook_target name_of
    contains after_first before last_segment starts_with text_eq split has_section_from after_hashes
    after_spaces
passes = refl
