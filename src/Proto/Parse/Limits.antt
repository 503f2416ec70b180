-- ===== src/Proto/Parse/Limits.antt =====
-- parse.rs, `parse_line_raw`: what a parsed line can hold.
use beanstalkd_rust.Base.{
  ℕ, ◌≡◌, refl, ap, arith, sym, ◌∙◌, Bool, true, is_empty, Option, none, some, Option-cases,
  Bool-cases, inl, inr, Bytes, max_u32, max_u64, ◌&&◌, leb, ltb, is_some, drop,
}
use beanstalkd_rust.Proto.Types.{Command, TubeName}
use beanstalkd_rust.Proto.Numbers.{
  read_u32_partial, read_u64_partial, read_u64_full, read_u32_full, parse_kick_count, tube_name_new,
  read_tube_name_span,
}
use beanstalkd_rust.Proto.Numbers.Limits.{
  tube_name_new-same, read_u64_full-bound, read_u32_full-bound, u32, u64, parse_kick_count-bound,
}
use beanstalkd_rust.Proto.Parse.{
  ParsedLine, parse_args, parse_line_raw, Op, which_cmd, has_nul, dispatch_op, tube_arg, id_arg,
  no_arg, checked_timeout, pause_command, max_i32,
}
use beanstalkd_rust.Proto.Result.{Result, ok, err, or_bad_format, ◌>>=◌}

-- Priorities, delays, times and sizes fit in 32 bits, ids in 64, and tube names are valid.
unfoldable pub in_range : Command → Bool
in_range (Command.put pri delay ttr body) = leb pri max_u32 && leb delay max_u32 && leb ttr max_u32
in_range (Command.release id pri delay) = leb id max_u64 && leb pri max_u32 && leb delay max_u32
in_range (Command.bury id pri) = leb id max_u64 && leb pri max_u32
in_range (Command.reserve_with_timeout t) = leb t max_i32
in_range (Command.reserve_job id) = leb id max_u64
in_range (Command.delete id) = leb id max_u64
in_range (Command.touch id) = leb id max_u64
in_range (Command.peek id) = leb id max_u64
in_range (Command.kick_job id) = leb id max_u64
in_range (Command.stats_job id) = leb id max_u64
in_range (Command.kick n) = leb n max_u32
in_range (Command.use_tube name) = is_some (tube_name_new name)
in_range (Command.watch name) = is_some (tube_name_new name)
in_range (Command.ignore name) = is_some (tube_name_new name)
in_range (Command.stats_tube name) = is_some (tube_name_new name)
in_range (Command.pause_tube name delay) = is_some (tube_name_new name) && leb delay max_u32
in_range _ = true

unfoldable pub line_in_range : ParsedLine → Bool
unfolding in_range
line_in_range (ParsedLine.command cmd) = in_range cmd
line_in_range (ParsedLine.put h) =
    leb h.pri max_u32 && leb h.delay max_u32 && leb h.ttr max_u32 && leb h.body_size max_u32

-- Every line that the result holds is in range.
fine : Result ParsedLine → Bool
fine (ok p) = line_in_range p
fine (err r) = true

-- Chains of readers: what follows may use what the reader promises.
fine-bind {ℓ} :
    {A : Type ℓ} (o : Option A) (f : A → Result ParsedLine)
    → ((a : A) → o ≡ some a → fine (f a) ≡ true)
    → fine (or_bad_format o >>= f) ≡ true
unfolding fine
fine-bind none f h = refl
fine-bind (some a) f h = h a refl

tube_arg-fine :
    (rest : Bytes) (f : TubeName → Command)
    → ((t : TubeName) → in_range (f t) ≡ is_some (tube_name_new t))
    → fine (tube_arg rest f) ≡ true
unfolding tube_arg fine line_in_range
tube_arg-fine rest f h =
    fine-bind (tube_name_new rest) (λ name. ok (ParsedLine.command (f name)))
      (λ t e. h t ∙ tube_name_new-same rest e)

id_arg-fine :
    (rest : Bytes) (f : ℕ → Command)
    → ((n : ℕ) → in_range (f n) ≡ leb n max_u64)
    → fine (id_arg rest f) ≡ true
unfolding id_arg fine line_in_range
id_arg-fine rest f h =
    fine-bind (read_u64_full rest) (λ id. ok (ParsedLine.command (f id)))
      (λ n e. h n ∙ read_u64_full-bound rest e)

no_arg-fine : (rest : Bytes) (cmd : Command) → in_range cmd ≡ true → fine (no_arg rest cmd) ≡ true
unfolding no_arg fine line_in_range
no_arg-fine rest cmd h = elim (Bool-cases (is_empty rest)) [ inl t ↦ rw t h | inr f ↦ rw f ]

checked_timeout-fine : (t : ℕ) → fine (checked_timeout t) ≡ true
unfolding checked_timeout fine line_in_range in_range
checked_timeout-fine t = elim (Bool-cases (ltb max_i32 t)) [
  | inl b ↦ rw b
  | inr f ↦ rw f (ground arith)
]

pause_command-in_range :
    (name : Bytes) (delay : ℕ)
    → leb delay max_u32 ≡ true
    → in_range (pause_command (tube_name_new name) delay) ≡ true
unfolding pause_command in_range
pause_command-in_range name delay h = elim (Option-cases (tube_name_new name)) [
  | inl e ↦ rw e
  | inr (t, e) ↦ rw (e, tube_name_new-same name e, h)
]

parse_args-fine : (op : Op) (rest : Bytes) → fine (parse_args op rest) ≡ true
unfolding parse_args fine line_in_range in_range
parse_args-fine Op.put rest = fine-bind (read_u32_partial rest) _ (λ p e.
    fine-bind (read_u32_partial p.1) _ (λ d f. fine-bind (read_u32_partial d.1) _ (λ t g.
      fine-bind (read_u32_partial t.1) _
        (λ b i. rw (u32 rest p e, u32 p.1 d f, u32 d.1 t g, u32 t.1 b i)))))
parse_args-fine Op.peek_job rest = id_arg-fine rest Command.peek (λ n. refl)
parse_args-fine Op.peek_ready rest = no_arg-fine rest Command.peek_ready refl
parse_args-fine Op.peek_delayed rest = no_arg-fine rest Command.peek_delayed refl
parse_args-fine Op.peek_buried rest = no_arg-fine rest Command.peek_buried refl
parse_args-fine Op.reserve_timeout rest =
    fine-bind (read_u32_partial rest) _ (λ p e. checked_timeout-fine p.0)
parse_args-fine Op.reserve_job rest = id_arg-fine rest Command.reserve_job (λ n. refl)
parse_args-fine Op.reserve rest = no_arg-fine rest Command.reserve refl
parse_args-fine Op.delete rest = id_arg-fine rest Command.delete (λ n. refl)
parse_args-fine Op.release rest = fine-bind (read_u64_partial rest) _ (λ i e.
    fine-bind (read_u32_partial i.1) _ (λ p f.
      fine-bind (read_u32_full p.1) _
        (λ d g. rw (u64 rest i e, u32 i.1 p f, read_u32_full-bound p.1 g))))
parse_args-fine Op.bury rest =
    fine-bind (read_u64_partial rest) _
      (λ i e. fine-bind (read_u32_full i.1) _ (λ p f. rw (u64 rest i e, read_u32_full-bound i.1 f)))
parse_args-fine Op.kick rest =
    fine-bind (parse_kick_count rest) _ (λ n e. parse_kick_count-bound rest e)
parse_args-fine Op.kick_job rest = id_arg-fine rest Command.kick_job (λ n. refl)
parse_args-fine Op.touch rest = id_arg-fine rest Command.touch (λ n. refl)
parse_args-fine Op.stats_job rest = id_arg-fine rest Command.stats_job (λ n. refl)
parse_args-fine Op.stats_tube rest = tube_arg-fine rest Command.stats_tube (λ t. refl)
parse_args-fine Op.stats rest = no_arg-fine rest Command.stats refl
parse_args-fine Op.use_tube rest = tube_arg-fine rest Command.use_tube (λ t. refl)
parse_args-fine Op.watch rest = tube_arg-fine rest Command.watch (λ t. refl)
parse_args-fine Op.ignore rest = tube_arg-fine rest Command.ignore (λ t. refl)
parse_args-fine Op.list_tubes_watched rest = no_arg-fine rest Command.list_tubes_watched refl
parse_args-fine Op.list_tube_used rest = no_arg-fine rest Command.list_tube_used refl
parse_args-fine Op.list_tubes rest = no_arg-fine rest Command.list_tubes refl
parse_args-fine Op.quit rest = refl
parse_args-fine Op.pause_tube rest = fine-bind (read_tube_name_span rest) _ (λ s e.
    fine-bind (read_u32_full s.1) _
      (λ d f. pause_command-in_range s.0 d (read_u32_full-bound s.1 f)))

dispatch_op-fine : (o : Option (Op × ℕ)) (line : Bytes) → fine (dispatch_op o line) ≡ true
unfolding dispatch_op fine
dispatch_op-fine none l = refl
dispatch_op-fine (some (op, n)) l = parse_args-fine op (drop n l)

parse_line_raw-fine : (text : Bytes) → fine (parse_line_raw text) ≡ true
unfolding parse_line_raw fine
parse_line_raw-fine text = elim (Bool-cases (has_nul text)) [
  | inl t ↦ rw (parse_line_raw, t)
  | inr f ↦ rw (parse_line_raw, f) (dispatch_op-fine (which_cmd text) text)
]

-- Whatever line is parsed: priorities, delays, times to run and body sizes fit in 32 bits, a
-- reserve time limit is at most `i32::MAX`, ids fit in 64 bits, and tube names are names that
-- `TubeName::new` accepts.
pub parse_line_raw-in_range :
    (text : Bytes) {p : ParsedLine} → parse_line_raw text ≡ ok p → line_in_range p ≡ true
unfolding fine
parse_line_raw-in_range text h = sym (ap fine h) ∙ parse_line_raw-fine text
