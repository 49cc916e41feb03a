-- ===== src/Mysh/Complete.antt =====
-- mysh/shell/shell.c: the keywords, and the completion of a word by the tab key.
pub mod Candidates
pub mod Tab
pub mod Match
use my_exercise.Prelude.{
  ℕ, zero, suc, ◌+◌, ◌-◌, ◌*◌, ◌==◌, leb, if◌then◌else◌, Bool, true, false, Option, none, some,
  List, [], ◌∷◌, ◌++◌, length,
}
use my_exercise.Bytes.{Memory, store8, memcpy}
use my_exercise.Mysh.Text.{crlf, sh_string}
use my_exercise.Mysh.Editor.{
  command_buf_size, max_key_word_size, max_key_word_cnt, blank, ShellKeywords, Line, Edit,
  when_some, put_buf,
}

-- What a byte loop over two strings does after their lengths are found equal.
abbrev pub same_bytes : List ℕ → List ℕ → Bool
same_bytes [] t = true
same_bytes (c ∷ s) [] = false
same_bytes (c ∷ s) (d ∷ t) = if c == d then same_bytes s t else false

unfoldable pub match_cmd : List ℕ → List ℕ → Bool
match_cmd a b = if length a == length b then same_bytes a b else false

-- `keywords_buf[i]` as a string; a row that has no NUL runs on into the next.
unfoldable pub keyword : ShellKeywords → ℕ → Option (List ℕ)
unfolding sh_string
keyword k i =
    sh_string (max_key_word_size * max_key_word_cnt - max_key_word_size * i) k.keywords_buf
      (max_key_word_size * i)

-- The bytes of `word` stand at `p + o`.
abbrev pub starts_at : List ℕ → Memory → ℕ → Bool
starts_at [] p o = true
starts_at (c ∷ word) p o = if c == p o then starts_at word p (o + 1) else false

-- The indices from `i` on that `find_match` puts into `idxs`, for `n` keywords.
unfoldable pub match_loop : ℕ → List ℕ → Memory → ℕ → List ℕ
match_loop zero word p i = []
match_loop (suc n) word p i =
    let rest = match_loop n word p (i + 1) in
    if starts_at word p (max_key_word_size * i) then i ∷ rest else rest

unfoldable pub find_match : ShellKeywords → List ℕ → List ℕ
unfolding match_loop
find_match k word = match_loop k.keywords_cnt word k.keywords_buf 0

-- The loop of `auto_complete` over `n` bytes of `buf` from `i` on: what stands in `tmp`, and `blank_pos + 1`.
unfoldable pub word_loop : ℕ → Memory → ℕ → List ℕ → ℕ → List ℕ × ℕ
word_loop zero buf i tmp start = (tmp, start)
word_loop (suc n) buf i tmp start =
    if buf i == blank
    then word_loop n buf (i + 1) [] (i + 1)
    else word_loop n buf (i + 1) (tmp ++ buf i ∷ []) start

-- The bytes of the keyword from `k` on go to the end of the line.
unfoldable pub append_bytes : List ℕ → Line → Option Line
append_bytes [] l = some l
append_bytes (c ∷ s) l =
    when_some (put_buf l.i c l) (λ l1. append_bytes s (record l1 { i = l.i + 1 }))

abbrev pub after_first : ℕ → List ℕ → List ℕ
after_first zero s = s
after_first (suc n) [] = []
after_first (suc n) (c ∷ s) = after_first n s

-- `"%s  "` for each of the keywords
unfoldable pub list_keywords : ShellKeywords → List ℕ → Option (List ℕ)
unfolding keyword
list_keywords k [] = some []
list_keywords k (i ∷ idxs) =
    when_some (keyword k i)
      (λ s. when_some (list_keywords k idxs) (λ rest. some (s ++ blank ∷ blank ∷ rest)))

unfoldable pub complete_one : ShellKeywords → ℕ → ℕ → Line → Edit
unfolding keyword append_bytes
complete_one k idx start l = when_some (keyword k idx) (λ s.
    let tail = after_first (l.i - start) s in
    when_some (append_bytes tail l) (λ l1. when_some (put_buf l1.i 0 l1) (λ l2. some (l2, tail))))

unfoldable pub complete_many : ShellKeywords → List ℕ → List ℕ → Line → Edit
unfolding list_keywords sh_string
complete_many k prompt idxs l = when_some (list_keywords k idxs) (λ names.
    when_some (sh_string command_buf_size l.buf 0)
      (λ s. some (l, crlf ++ names ++ crlf ++ prompt ++ s)))

unfoldable pub by_matches : ShellKeywords → List ℕ → List ℕ → ℕ → Line → Edit
unfolding complete_one complete_many
by_matches k prompt [] start l = some (l, [])
by_matches k prompt (idx ∷ []) start l = complete_one k idx start l
by_matches k prompt (idx ∷ idx' ∷ idxs) start l = complete_many k prompt (idx ∷ idx' ∷ idxs) l

-- `tmp` is a string: `find_match` sees it up to its first NUL.
abbrev pub until_nul : List ℕ → List ℕ
until_nul [] = []
until_nul (c ∷ s) = if c == 0 then [] else c ∷ until_nul s

unfoldable pub auto_complete : ShellKeywords → List ℕ → Line → Edit
unfolding word_loop find_match by_matches
auto_complete k prompt l =
    let (tmp, start) = word_loop l.i l.buf 0 [] 0 in
    by_matches k prompt (find_match k (until_nul tmp)) start l

-- `sh_memcpy(p + o, s, sh_strlen(s))`
abbrev pub put_bytes : Memory → ℕ → List ℕ → Memory
put_bytes p o [] = p
put_bytes p o (c ∷ s) = put_bytes (store8 p o c) (o + 1) s

unfoldable pub shell_add_keyword : List ℕ → ShellKeywords → Option ShellKeywords
unfolding store8
shell_add_keyword name k =
    if leb (max_key_word_size * k.keywords_cnt + length name) (max_key_word_size * max_key_word_cnt)
    then some (record {
      keywords_cnt = k.keywords_cnt + 1;
      keywords_buf = put_bytes k.keywords_buf (max_key_word_size * k.keywords_cnt) name;
    })
    else none

-- The first keyword from `i` on that is `name`, of `n` that are left; `none` inside is "not found".
unfoldable pub keyword_index : ℕ → ShellKeywords → List ℕ → ℕ → Option (Option ℕ)
unfolding keyword match_cmd
keyword_index zero k name i = some none
keyword_index (suc n) k name i =
    let rest = keyword_index n k name (i + 1) in
    when_some (keyword k i) (λ s. if match_cmd name s then some (some i) else rest)

-- `n` rows move down by one, from row `i + 1` on.
unfoldable pub move_rows : ℕ → Memory → ℕ → Memory
unfolding memcpy
move_rows zero p i = p
move_rows (suc n) p i =
    move_rows n (memcpy p (max_key_word_size * i) p (max_key_word_size * (i + 1)) max_key_word_size)
      (i + 1)

unfoldable pub shell_remove_keyword : List ℕ → ShellKeywords → Option ShellKeywords
unfolding keyword_index move_rows
shell_remove_keyword name k = when_some (keyword_index k.keywords_cnt k name 0) (λ found.
    elim found [
      | none ↦ some k
      | some i ↦ some (record {
        keywords_cnt = k.keywords_cnt - 1;
        keywords_buf = move_rows (k.keywords_cnt - 1 - i) k.keywords_buf i;
      })
    ])
