-- ===== src/Log.antt =====
-- cpp/include/nsb.h, `NsbLogSink`: the form of a line of the log. The time zone is Abseil's: a
-- time is what `ToCivilSecond` makes of it, with the microseconds that are left.
use nsb_beta.Base.{
  length-decimal-le, ℕ, zero, suc, ◌+◌, ◌-◌, ◌^◌, ◌≤◌, ◌<◌, ◌≡◌, refl, ap, ◌∙◌, [], ◌∷◌, ◌++◌,
  arith, length, take, drop, length-append, Bytes, codes, decimal, read_digits, read_digits-decimal,
}

-- `absl::LogSeverity`
pub data Severity : Type 0 where
  info warning error fatal other_severity : Severity

pub record LogTime : Type 0 where
  pub hour : ℕ
  pub minute : ℕ
  pub second : ℕ
  pub micros : ℕ

unfoldable pub severity_text : Severity → Bytes
severity_text info = codes "(info)"
severity_text warning = codes "(warning)"
severity_text error = codes "(error)"
severity_text fatal = codes "(FATAL)"
severity_text other_severity = codes "(other)"

replicate : ℕ → ℕ → Bytes
replicate zero c = []
replicate (suc n) c = c ∷ replicate n c

-- `std::setfill(fill) << std::setw(width) << s`
unfoldable pub padded : ℕ → ℕ → Bytes → Bytes
unfolding replicate
padded fill width s = replicate (width - length s) fill ++ s

-- What `Send` writes, from its end to its beginning.
abbrev severity_on : Severity → Bytes → Bytes
severity_on severity text = padded b' ' 9 (severity_text severity) ++ (b' ' ∷ text)

abbrev micros_on : LogTime → Severity → Bytes → Bytes
micros_on t severity text =
    padded b'0' 6 (decimal t.micros) ++ (b']' ∷ (b' ' ∷ severity_on severity text))

abbrev second_on : LogTime → Severity → Bytes → Bytes
second_on t severity text = padded b'0' 2 (decimal t.second) ++ (b'.' ∷ micros_on t severity text)

abbrev minute_on : LogTime → Severity → Bytes → Bytes
minute_on t severity text = padded b'0' 2 (decimal t.minute) ++ (b':' ∷ second_on t severity text)

unfoldable pub log_line : LogTime → Severity → Bytes → Bytes
log_line t severity text =
    b'[' ∷ (padded b'0' 2 (decimal t.hour) ++ (b':' ∷ minute_on t severity text))

length-replicate : (n c : ℕ) → length (replicate n c) ≡ n
unfolding replicate
length-replicate zero c = refl
length-replicate (suc n) c = rw (length-replicate n c)

length-padded :
    (fill width : ℕ) (s : Bytes) → length s ≤ width → length (padded fill width s) ≡ width
unfolding padded
length-padded fill width s h =
    rw
      (
        length-append (replicate (width - length s) fill) s,
        length-replicate (width - length s) fill,
      )
      (omega arith)

read_zeros : (n : ℕ) (s : Bytes) → read_digits 0 (replicate n b'0' ++ s) ≡ read_digits 0 s
unfolding replicate read_digits
read_zeros zero s = refl
read_zeros (suc n) s = read_zeros n s

-- A number in a column that is wide enough.
column : (w n : ℕ) → n < 10 ^ suc w → length (padded b'0' (suc w) (decimal n)) ≡ suc w
column w n h = length-padded b'0' (suc w) (decimal n) (length-decimal-le w n h)

read_column : (w n : ℕ) → read_digits 0 (padded b'0' w (decimal n)) ≡ n
unfolding padded
read_column w n = read_zeros (w - length (decimal n)) (decimal n) ∙ read_digits-decimal n

take_column : (w : ℕ) (xs ys : Bytes) → length xs ≡ w → take w (xs ++ ys) ≡ xs
take_column zero [] ys h = refl
take_column zero (x ∷ xs) ys h = absurd (omega (arith, h))
take_column (suc w) [] ys h = absurd (omega (arith, h))
take_column (suc w) (x ∷ xs) ys h = rw (take_column w xs ys (omega arith))

drop_column : (w n : ℕ) (xs ys : Bytes) → length xs ≡ w → drop (w + n) (xs ++ ys) ≡ drop n ys
drop_column zero n [] ys h = ap (λ k. drop k ys) (omega arith)
drop_column zero n (x ∷ xs) ys h = absurd (omega (arith, h))
drop_column (suc w) n [] ys h = absurd (omega (arith, h))
drop_column (suc w) n (x ∷ xs) ys h =
    let shift : suc w + n ≡ suc (w + n) = omega arith in
    ap (λ k. drop k (x ∷ (xs ++ ys))) shift ∙ drop_column w n xs ys (omega (arith, h))

severity_fits : (s : Severity) → length (severity_text s) ≤ 9
unfolding severity_text
severity_fits info = omega arith
severity_fits warning = omega arith
severity_fits error = omega arith
severity_fits fatal = omega arith
severity_fits other_severity = omega arith

past_micros :
    (t : LogTime) (severity : Severity) (text : Bytes)
    → length (padded b'0' 6 (decimal t.micros)) ≡ 6
    → drop 18 (micros_on t severity text) ≡ text
past_micros t severity text six =
    drop_column 6 12 (padded b'0' 6 (decimal t.micros)) (b']' ∷ (b' ' ∷ severity_on severity text))
      six
    ∙ drop_column 9 1 (padded b' ' 9 (severity_text severity)) (b' ' ∷ text)
        (length-padded b' ' 9 (severity_text severity) (severity_fits severity))

-- The number that stands in the columns from `first`, as many as `width`.
abbrev pub read_at : ℕ → ℕ → Bytes → ℕ
read_at first width line = read_digits 0 (take width (drop first line))

pub record IsTime (t : LogTime) : Type 0 where
  pub hours : t.hour < 24
  pub minutes : t.minute < 60
  pub seconds : t.second < 60
  pub microseconds : t.micros < 1000000

-- The text of a line of the log begins in column 28, and the time is read from columns of its
-- own, whatever the severity and the text are.
pub log_line_columns :
    (t : LogTime) (severity : Severity) (text : Bytes)
    → IsTime t
    → let line = log_line t severity text in
      (drop 28 line ≡ text)
      × (read_at 1 2 line ≡ t.hour)
      × (read_at 4 2 line ≡ t.minute)
      × (read_at 7 2 line ≡ t.second)
      × (read_at 10 6 line ≡ t.micros)
unfolding log_line
log_line_columns t severity text h =
    let hour = padded b'0' 2 (decimal t.hour) in
    let minute = padded b'0' 2 (decimal t.minute) in
    let second = padded b'0' 2 (decimal t.second) in
    let micros = padded b'0' 6 (decimal t.micros) in
    let fits = column 1 t.hour (omega (arith, h.hours)) in
    let fits' = column 1 t.minute (omega (arith, h.minutes)) in
    let fits'' = column 1 t.second (omega (arith, h.seconds)) in
    let six = column 5 t.micros (omega (arith, h.microseconds)) in
    let past_hour = λ (n : ℕ). drop_column 2 n hour (b':' ∷ minute_on t severity text) fits in
    let past_minute = λ (n : ℕ). drop_column 2 n minute (b':' ∷ second_on t severity text) fits' in
    let past_second = λ (n : ℕ). drop_column 2 n second (b'.' ∷ micros_on t severity text) fits'' in
    (
      past_hour 25 ∙ past_minute 22 ∙ past_second 19 ∙ past_micros t severity text six,
      ap (read_digits 0) (take_column 2 hour _ fits) ∙ read_column 2 t.hour,
      ap (λ s. read_digits 0 (take 2 s)) (past_hour 1)
          ∙ ap (read_digits 0) (take_column 2 minute _ fits')
          ∙ read_column 2 t.minute,
      ap (λ s. read_digits 0 (take 2 s)) (past_hour 4 ∙ past_minute 1)
          ∙ ap (read_digits 0) (take_column 2 second _ fits'')
          ∙ read_column 2 t.second,
      ap (λ s. read_digits 0 (take 6 s)) (past_hour 7 ∙ past_minute 4 ∙ past_second 1)
          ∙ ap (read_digits 0) (take_column 6 micros _ six)
          ∙ read_column 6 t.micros,
    )
