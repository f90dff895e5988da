-- ===== src/Metrics/Line.antt =====
-- The regular expression of SendSocketMetrics (plugins/MetricsPlugin.cxx),
--   (.*)\[(\d+)\]: in: (number) \((number) MB\) out: (number) \((number) MB\)
-- with std::regex_search. A class of characters is followed by one that is not in it, so that it
-- takes all it can; `.*` takes the longest part of the line behind which the rest fits.
use nestdaq.Base.{◌>>=◌, ℕ, Bool, ◌||◌, [], ◌∷◌, Option, none, some, ◌==◌, if◌then◌else◌}
use nestdaq.Text.{Text, codes}
use nestdaq.Text.Number.{is_digit}
use nestdaq.Text.Search.{has}

pub record Line : Type 0 where
  pub channel : Text
  pub index : Text
  pub num_message_in : Text
  pub bytes_in : Text
  pub num_message_out : Text
  pub bytes_out : Text

-- [\d.eE\-+]
unfoldable pub is_float : ℕ → Bool
unfolding is_digit has
is_float c = is_digit c || has (codes ".eE-+") c

-- The longest part at the front with characters of a class, and what follows it.
unfoldable pub run : (ℕ → Bool) → Text → Text × Text
run p [] = ([], [])
run p (c ∷ t) = let rest = run p t in if p c then (c ∷ rest.0, rest.1) else ([], c ∷ t)

-- A class with `+`: one character at least.
unfoldable pub some_of : (ℕ → Bool) → Text → Option (Text × Text)
unfolding run
some_of p t = let (found, rest) = run p t in elim found [ [] ↦ none | c ∷ cs ↦ some (c ∷ cs, rest) ]

-- What follows a literal.
unfoldable pub behind : Text → Text → Option Text
behind [] t = some t
behind (p ∷ ps) [] = none
behind (p ∷ ps) (c ∷ t) = let rest = behind ps t in if p == c then rest else none

-- `(_messages_ (_bytes_ MB)` behind a literal
unfoldable pub pair : Text → Text → Option (Text × Text × Text)
unfolding some_of behind
pair word t = do
  t1 ← behind word t
  (messages, t2) ← some_of is_float t1
  t3 ← behind (codes " (") t2
  (bytes, t4) ← some_of is_float t3
  t5 ← behind (codes " MB)") t4
  some (messages, bytes, t5)

-- The expression behind `(.*)`
unfoldable pub fit : Text → Option Line
unfolding pair some_of behind
fit t = do
  t1 ← behind (codes "[") t
  (index, t2) ← some_of is_digit t1
  (messages_in, bytes_in, t3) ← pair (codes "]: in: ") t2
  (messages_out, bytes_out, t4) ← pair (codes " out: ") t3
  some (record {
    channel = [];
    index = index;
    num_message_in = messages_in;
    bytes_in = bytes_in;
    num_message_out = messages_out;
    bytes_out = bytes_out;
  })

abbrev pub longer : ℕ → Line → Line
longer c l = record l { channel = c ∷ l.channel }

-- The match that begins here; `.` is no end of a line.
unfoldable pub match_here : Text → Option Line
unfolding fit
match_here [] = none
match_here (c ∷ t) = elim (match_here t) [
  | none ↦ fit (c ∷ t)
  | some l ↦ if c == 10 || c == 13 then fit (c ∷ t) else some (longer c l)
]

-- The first place at which there is a match.
unfoldable pub regex_search : Text → Option Line
unfolding match_here
regex_search [] = none
regex_search (c ∷ t) = elim (match_here (c ∷ t)) [ none ↦ regex_search t | some l ↦ some l ]
