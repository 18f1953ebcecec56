-- ===== src/Base/Log/Lines.antt =====
-- The lines of the log of czrpc/base/czlog.hpp.
use czrpc.Prelude.{
  ℕ, zero, suc, ◌+◌, ◌-◌, ◌/◌, ◌%◌, Bytes, codes, List, [], ◌∷◌, ◌++◌, append-nil, append_assoc,
  none, some, length, take, drop, replicate, concat, All, ◌≡◌, ◌≢◌, refl, ap, sym, ◌∙◌, arith,
}
use czrpc.Prelude.Decimal.{to_string, digits_of}
use czrpc.Base.Log.{
  PriorityLevel, LocalTime, padded, time_text, current_time, get_level_str, find_last_of, file_name,
  LoggerStream, log, write, write_all, c_string, print_log,
}

abbrev pub HasNo : ℕ → Bytes → Type 0
HasNo c = All (λ d. d ≢ c)

HasNo-append : (c : ℕ) (xs ys : Bytes) → HasNo c xs → HasNo c ys → HasNo c (xs ++ ys)
HasNo-append c [] ys p q = q
HasNo-append c (x ∷ xs) ys p q = (p.0, HasNo-append c xs ys p.1 q)

not_found : (c : ℕ) (xs : Bytes) → HasNo c xs → find_last_of c xs ≡ none
unfolding find_last_of
not_found c [] p = refl
not_found c (x ∷ xs) p = ground (arith, not_found c xs p.1)

found_last : (c : ℕ) (xs ys : Bytes) → HasNo c ys → find_last_of c (xs ++ c ∷ ys) ≡ some (length xs)
unfolding find_last_of
found_last c [] ys p = ground (arith, not_found c ys p)
found_last c (x ∷ xs) ys p = ground (arith, found_last c xs ys p)

drop_behind : (c : ℕ) (xs ys : Bytes) → drop (suc (length xs)) (xs ++ c ∷ ys) ≡ ys
drop_behind c [] ys = refl
drop_behind c (x ∷ xs) ys = drop_behind c xs ys

-- The name of a file is what follows the last slash of its path, and the whole path if it has none.
pub file_name_lem :
    (directory base : Bytes)
    → HasNo 47 base
    → (file_name base ≡ base) × (file_name (directory ++ 47 ∷ base) ≡ base)
unfolding file_name
file_name_lem directory base p = (
  ground (arith, not_found 47 base p),
  ground (arith, found_last 47 directory base p, drop_behind 47 directory base),
)

HasNo-digits : (f n : ℕ) → HasNo 0 (digits_of f n)
unfolding digits_of
HasNo-digits zero n = tt
HasNo-digits (suc f) n =
    ground
      (arith, HasNo-digits f (n / 10), HasNo-append 0 (digits_of f (n / 10)) ((48 + n % 10) ∷ []))

HasNo-replicate : (n : ℕ) → HasNo 0 (replicate n 48)
HasNo-replicate zero = tt
HasNo-replicate (suc n) = (omega arith, HasNo-replicate n)

HasNo-padded : (w n : ℕ) → HasNo 0 (padded w n)
unfolding padded to_string
HasNo-padded w n =
    HasNo-append 0 (replicate (w - length (digits_of 20 n)) 48) (digits_of 20 n) (HasNo-replicate _)
      (HasNo-digits 20 n)

HasNo-take : (n : ℕ) (xs : Bytes) → HasNo 0 xs → HasNo 0 (take n xs)
HasNo-take zero xs p = tt
HasNo-take (suc n) [] p = tt
HasNo-take (suc n) (x ∷ xs) p = (p.0, HasNo-take n xs p.1)

separator : (c : ℕ) → c ≢ 0 → HasNo 0 (c ∷ [])
separator c h = (h, tt)

time_text-HasNo : (t : LocalTime) → HasNo 0 (time_text t)
unfolding time_text
time_text-HasNo t =
    search
      (
        HasNo-append,
        HasNo-padded,
        separator 45 (omega arith),
        separator 32 (omega arith),
        separator 58 (omega arith),
        separator 46 (omega arith),
      )
      depth 30

current_time-HasNo : (t : LocalTime) → HasNo 0 (current_time t)
unfolding current_time
current_time-HasNo t = HasNo-take 26 (time_text t) (time_text-HasNo t)

level-HasNo : (level : PriorityLevel) → HasNo 0 (get_level_str level)
unfolding get_level_str
level-HasNo level = ground arith

c_string-whole : (xs : Bytes) → HasNo 0 xs → c_string xs ≡ xs
unfolding c_string
c_string-whole [] p = refl
c_string-whole (x ∷ xs) p = ground (arith, c_string-whole xs p.1)

c_string-cut : (xs ys : Bytes) → HasNo 0 xs → c_string (xs ++ 0 ∷ ys) ≡ xs
unfolding c_string
c_string-cut [] ys p = refl
c_string-cut (x ∷ xs) ys p = ground (arith, c_string-cut xs ys p.1)

written :
    (texts : List Bytes) (s : LoggerStream)
    → write_all texts s ≡ record s { buffer = s.buffer ++ concat texts }
unfolding write_all write
written [] s = ap (λ (b : Bytes). record s { buffer = b }) (sym (append-nil s.buffer))
written (text ∷ texts) s =
    written texts (record s { buffer = s.buffer ++ text })
    ∙ ap (λ (b : Bytes). record s { buffer = b }) (append_assoc s.buffer text (concat texts))

concat-append : (us vs : List Bytes) → concat (us ++ vs) ≡ concat us ++ concat vs
concat-append [] vs = refl
concat-append (u ∷ us) vs = simp (concat-append us vs, append_assoc)

concat-HasNo : (texts : List Bytes) → All (HasNo 0) texts → HasNo 0 (concat texts)
concat-HasNo [] p = tt
concat-HasNo (text ∷ texts) p = HasNo-append 0 text (concat texts) p.0 (concat-HasNo texts p.1)

bracket : HasNo 0 (codes ") ")
bracket = (omega arith, (omega arith, tt))

module _ (now : LocalTime) (directory base func_name : Bytes) (line : ℕ) (level : PriorityLevel)
    (texts : List Bytes) (named : HasNo 47 base) (based : HasNo 0 base)
    (function : HasNo 0 func_name) where
  abbrev line_of : Bytes
  line_of =
      current_time now
      ++ codes " "
      ++ get_level_str level
      ++ codes " "
      ++ base
      ++ codes " "
      ++ func_name
      ++ codes "("
      ++ to_string line
      ++ codes ") "

  line_of-HasNo : HasNo 0 line_of
  unfolding to_string
  line_of-HasNo =
      search
        (
          HasNo-append,
          current_time-HasNo,
          level-HasNo,
          HasNo-digits,
          based,
          function,
          separator 32 (omega arith),
          separator 40 (omega arith),
          bracket,
        )
        depth 30

  cut_at :
      (before after : Bytes) (more : List Bytes)
      → line_of ++ concat (texts ++ (before ++ 0 ∷ after) ∷ more)
        ≡ ((line_of ++ concat texts) ++ before) ++ 0 ∷ (after ++ concat more)
  cut_at before after more = simp (concat-append texts ((before ++ 0 ∷ after) ∷ more), append_assoc)

  abbrev stream : LoggerStream
  stream = log (directory ++ 47 ∷ base) func_name line level

  -- What is printed, before it is cut at a zero byte.
  begun :
      (ts : List Bytes)
      → print_log now (write_all ts stream) ≡ c_string (line_of ++ concat ts) ++ codes "\n"
  unfolding print_log log
  begun ts =
      ap (print_log now) (written ts stream)
      ∙ simp ((file_name_lem directory base named).1, append_assoc)

  -- A statement of the log prints one line: the time, the level, the file's name without its directory,
  -- the function and the line, and then the texts that were written, if they hold no zero byte. A text
  -- with a zero byte ends the line there, whatever is written behind it.
  pub log_line :
      (before after : Bytes) (more : List Bytes)
      → All (HasNo 0) texts
      → HasNo 0 before
      → (print_log now (write_all texts stream) ≡ line_of ++ (concat texts ++ codes "\n"))
        × (print_log now (write_all (texts ++ (before ++ 0 ∷ after) ∷ more) stream)
            ≡ line_of ++ (concat texts ++ (before ++ codes "\n")))
  log_line before after more clean p =
      let shown = HasNo-append 0 line_of (concat texts) line_of-HasNo (concat-HasNo texts clean) in
      (
        begun texts
            ∙ ap (λ (b : Bytes). b ++ codes "\n") (c_string-whole (line_of ++ concat texts) shown)
            ∙ append_assoc line_of (concat texts) (codes "\n"),
        begun (texts ++ (before ++ 0 ∷ after) ∷ more)
            ∙ ap (λ (b : Bytes). c_string b ++ codes "\n") (cut_at before after more)
            ∙ ap (λ (b : Bytes). b ++ codes "\n")
                (c_string-cut ((line_of ++ concat texts) ++ before) (after ++ concat more)
                  (HasNo-append 0 (line_of ++ concat texts) before shown p))
            ∙ simp append_assoc,
      )
