-- ===== src/DockerManager/Logs.antt =====
-- src/docker.rs: `DockerManager::stream_logs`.
use spawngate.Base.{
  ◌≡◌, refl, ap, sym, ◌∙◌, true, false, inl, inr, Bool-cases, Option, none, some, List, [], ◌∷◌,
  arith, if◌then◌else◌,
}
use spawngate.Base.Text.{Text}
use spawngate.Base.Lists.{All, is_empty}
use spawngate.Base.Strings.{trim_end}
use spawngate.Base.Strings.Lines.{trim_end-trim_end}

-- The stream that a line is logged with.
pub data Stream : Type 0 where
  stdout stderr console : Stream

-- An item of the logs of the container, with its message as text, if it is UTF-8.
pub data LogOutput : Type 0 where
  output : Stream → Option Text → LogOutput
  std_in : LogOutput

-- What ends a wait of the loop: a change of the shutdown flag or the drop of its sender, or the next item
-- of the stream, an error of it or its end.
pub data LogEvent : Type 0 where
  stop_changed : LogEvent
  item : LogOutput → LogEvent
  read_failed : Text → LogEvent
  ended : LogEvent

pub data Level : Type 0 where
  info warn : Level

-- A line in the log of the program, about the backend `hostname`.
pub record LogLine : Type 0 where
  pub level : Level
  pub hostname : Text
  pub stream : Stream
  pub line : Text

level_of : Stream → Level
level_of stdout = info
level_of stderr = warn
level_of console = info

unfoldable pub line_of : Text → LogOutput → Option LogLine
unfolding level_of trim_end
line_of hostname std_in = none
line_of hostname (output stream none) = none
line_of hostname (output stream (some message)) =
    let line = trim_end message in
    if is_empty line
    then none
    else some
        (record { level = level_of stream; hostname = hostname; stream = stream; line = line })

unfoldable pub push_line : Option LogLine → List LogLine → List LogLine
push_line none lines = lines
push_line (some l) lines = l ∷ lines

-- The lines that are logged, and the events that are left when the task ends, if it does.
unfoldable pub stream_logs : Text → List LogEvent → List LogLine × Option (List LogEvent)
unfolding line_of push_line
stream_logs hostname [] = ([], none)
stream_logs hostname (stop_changed ∷ events) = ([], some events)
stream_logs hostname (read_failed e ∷ events) = ([], some events)
stream_logs hostname (ended ∷ events) = ([], some events)
stream_logs hostname (item o ∷ events) =
    let (lines, left) = stream_logs hostname events in (push_line (line_of hostname o) lines, left)

-- The lines of a sequence of items.
abbrev lines_of : Text → List LogOutput → List LogLine
lines_of hostname [] = []
lines_of hostname (o ∷ os) = push_line (line_of hostname o) (lines_of hostname os)

abbrev pub items : List LogOutput → List LogEvent → List LogEvent
items [] rest = rest
items (o ∷ os) rest = item o ∷ items os rest

-- An event that ends the task.
abbrev pub IsLast : LogEvent → Type 0
IsLast stop_changed = Unit
IsLast (read_failed e) = Unit
IsLast ended = Unit
IsLast (item o) = ⊥

-- A line that is not empty, and does not end in white space.
pub record IsTidy (hostname : Text) (l : LogLine) : Type 0 where
  pub about : l.hostname ≡ hostname
  pub full : is_empty l.line ≡ false
  pub trimmed : trim_end l.line ≡ l.line

IsTidy-line_of :
    (hostname : Text) (o : LogOutput) (l : LogLine)
    → line_of hostname o ≡ some l
    → IsTidy hostname l
unfolding line_of
IsTidy-line_of hostname std_in l e = cc
IsTidy-line_of hostname (output stream none) l e = cc
IsTidy-line_of hostname (output stream (some message)) l e =
    let kept : is_empty (trim_end message) ≡ false = ground arith in
    let same : l ≡ record {
      level = level_of stream;
      hostname = hostname;
      stream = stream;
      line = trim_end message;
    } =
      ground arith in
    record {
      about = ap (λ x. x.hostname) same;
      full = ap (λ x. is_empty x.line) same ∙ kept;
      trimmed =
          ap (λ x. trim_end x.line) same
          ∙ (trim_end-trim_end message ∙ sym (ap (λ x. x.line) same));
    }

push_line-IsTidy :
    (hostname : Text) (l : Option LogLine) (ls : List LogLine)
    → ((k : LogLine) → l ≡ some k → IsTidy hostname k)
    → All (IsTidy hostname) ls
    → All (IsTidy hostname) (push_line l ls)
unfolding push_line
push_line-IsTidy hostname none ls t ts = ts
push_line-IsTidy hostname (some l) ls t ts = (t l refl, ts)

lines_of-IsTidy :
    (hostname : Text) (os : List LogOutput) → All (IsTidy hostname) (lines_of hostname os)
lines_of-IsTidy hostname [] = tt
lines_of-IsTidy hostname (o ∷ os) =
    push_line-IsTidy hostname (line_of hostname o) (lines_of hostname os)
      (IsTidy-line_of hostname o) (lines_of-IsTidy hostname os)

stream_logs-items :
    (hostname : Text) (os : List LogOutput) (e : LogEvent) (rest : List LogEvent)
    → IsLast e
    → stream_logs hostname (items os (e ∷ rest)) ≡ (lines_of hostname os, some rest)
unfolding stream_logs
stream_logs-items hostname [] stop_changed rest u = refl
stream_logs-items hostname [] (read_failed x) rest u = refl
stream_logs-items hostname [] ended rest u = refl
stream_logs-items hostname [] (item o) rest u = elim u [ ]
stream_logs-items hostname (o ∷ os) e rest u = rw (stream_logs-items hostname os e rest u) refl

-- A message in the log of the program, without the white space at its end.
abbrev pub logged_as : Level → Stream → Text → Text → LogLine
logged_as level stream hostname message = record {
  level = level;
  hostname = hostname;
  stream = stream;
  line = trim_end message;
}

-- What is logged of the items, one after the other.
pub data Logged (hostname : Text) : List LogOutput → List LogLine → Type 0 where
  nothing : Logged hostname [] []
  input :
      {os : List LogOutput} {ls : List LogLine}
      → Logged hostname os ls
      → Logged hostname (std_in ∷ os) ls
  bytes :
      {stream : Stream} {os : List LogOutput} {ls : List LogLine}
      → Logged hostname os ls
      → Logged hostname (output stream none ∷ os) ls
  blank :
      {stream : Stream} {message : Text} {os : List LogOutput} {ls : List LogLine}
      → is_empty (trim_end message) ≡ true
      → Logged hostname os ls
      → Logged hostname (output stream (some message) ∷ os) ls
  said :
      {message : Text} {os : List LogOutput} {ls : List LogLine}
      → is_empty (trim_end message) ≡ false
      → Logged hostname os ls
      → Logged hostname
          (output stdout (some message) ∷ os)
          (logged_as info stdout hostname message ∷ ls)
  complained :
      {message : Text} {os : List LogOutput} {ls : List LogLine}
      → is_empty (trim_end message) ≡ false
      → Logged hostname os ls
      → Logged hostname
          (output stderr (some message) ∷ os)
          (logged_as warn stderr hostname message ∷ ls)
  shown :
      {message : Text} {os : List LogOutput} {ls : List LogLine}
      → is_empty (trim_end message) ≡ false
      → Logged hostname os ls
      → Logged hostname
          (output console (some message) ∷ os)
          (logged_as info console hostname message ∷ ls)

Logged-full :
    (hostname : Text) (stream : Stream) (message : Text) (os : List LogOutput) (ls : List LogLine)
    → is_empty (trim_end message) ≡ false
    → Logged hostname os ls
    → Logged hostname
        (output stream (some message) ∷ os)
        (logged_as (level_of stream) stream hostname message ∷ ls)
unfolding level_of
Logged-full hostname stdout message os ls full l = said full l
Logged-full hostname stderr message os ls full l = complained full l
Logged-full hostname console message os ls full l = shown full l

Logged-lines_of :
    (hostname : Text) (os : List LogOutput) → Logged hostname os (lines_of hostname os)
unfolding line_of push_line
Logged-lines_of hostname [] = nothing
Logged-lines_of hostname (std_in ∷ os) = input (Logged-lines_of hostname os)
Logged-lines_of hostname (output stream none ∷ os) = bytes (Logged-lines_of hostname os)
Logged-lines_of hostname (output stream (some message) ∷ os) =
    elim (Bool-cases (is_empty (trim_end message))) [
      | inl t ↦ rw t (blank t (Logged-lines_of hostname os))
      | inr f ↦ rw f (Logged-full hostname stream message os _ f (Logged-lines_of hostname os))
    ]

-- The log of a container goes on until its stream ends or fails or it is told to stop, and ends then,
-- whatever comes after. Until then, in the order of the items, each message that is text and has more than
-- white space gives one line about its backend, without the white space at its end: a warning for the
-- container's standard error, and an information for its standard output and its console. Input, bytes
-- that are no text, and blank messages give none.
pub stream_logs-Logged :
    (hostname : Text) (os : List LogOutput) (e : LogEvent) (rest : List LogEvent)
    → IsLast e
    → (lines : List LogLine) × (stream_logs hostname (items os (e ∷ rest)) ≡ (lines, some rest))
      × Logged hostname os lines
      × All (IsTidy hostname) lines
stream_logs-Logged hostname os e rest u = (
  lines_of hostname os,
  stream_logs-items hostname os e rest u,
  Logged-lines_of hostname os,
  lines_of-IsTidy hostname os,
)
