-- ===== src/Tests/Stamps.antt =====
-- The stamp of a summer evening.
use nparse_plus.Prelude.{◌≡◌, refl, some}
use nparse_plus.Logs.Stamps.{DateTime, is_date, days_in_month, parse_timestamp, format_timestamp}
use nparse_plus.Logs.StampTrip.{parse-format_timestamp}
use nparse_plus.Logs.LineInfo.{parse_line, format_line}
use nparse_plus.Logs.LineTrip.{parse-format_line}
use nparse_plus.Text.{codes, is_space}

abbrev evening : DateTime
evening = record {
  year = 2026;
  month = 7;
  day = 8;
  hour = 21;
  minute = 59;
  second = 36;
  microsecond = 5;
}

parse-format_timestamp_example :
    parse_timestamp (format_timestamp evening) ≡ some (record evening { microsecond = 0 })
unfolding is_date days_in_month
parse-format_timestamp_example = parse-format_timestamp evening refl

parse-format_line_example :
    parse_line (format_line (codes "Your body aches.") evening) 7 evening
    ≡ some (record {
      raw = format_line (codes "Your body aches.") evening;
      message = codes "Your body aches.";
      timestamp = record evening { microsecond = 0 };
      line_number = 7;
    })
unfolding is_date days_in_month is_space
parse-format_line_example =
    parse-format_line (codes "Your body aches.") evening 7 evening refl refl refl refl
