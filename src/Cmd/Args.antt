-- ===== src/Cmd/Args.antt =====
-- src/cmd.c: comparing a command argument with a name, and quoting it in an error message.
use redis_server_c.Prelude.{
  ℕ, zero, suc, ◌+◌, ◌-◌, Bool, true, false, ◌&&◌, ◌||◌, List, [], ◌∷◌, ◌++◌, Bytes, codes, length,
  get_or, take, ltb, leb, ◌==◌, if◌then◌else◌,
}
use redis_server_c.Resp.Reply.{RespBuf, resp_reply_error}

-- `tolower` in the C locale.
abbrev pub to_lower : ℕ → ℕ
to_lower c = if leb b'A' c && leb c b'Z' then c + 32 else c

-- The loop of `arg_eq_ci` for `n` bytes; an argument that ends before differs.
unfoldable pub same_ci : Bytes → Bytes → ℕ → Bool
same_ci a b zero = true
same_ci (x ∷ a) (y ∷ b) (suc n) = (to_lower x == to_lower y) && same_ci a b n
same_ci a b (suc n) = false

unfoldable pub arg_eq_ci : Bytes → Bytes → Bool
unfolding same_ci
arg_eq_ci arg lit = (length arg == length lit) && same_ci arg lit (length lit)

-- What `safe_token` writes for a byte.
abbrev pub safe_char : ℕ → ℕ
safe_char c = if ltb c 32 || (c == 127) then b'?' else to_lower c

unfoldable pub safe_chars : Bytes → Bytes
safe_chars [] = []
safe_chars (c ∷ s) = safe_char c ∷ safe_chars s

-- `safe_token(name, 32, arg)`
unfoldable pub safe_token : Bytes → Bytes
unfolding safe_chars
safe_token arg = safe_chars (take 31 arg)

-- `snprintf(msg, size, ...)` cuts the text to `size - 1` bytes.
abbrev pub snprintf : ℕ → Bytes → Bytes
snprintf size text = take (size - 1) text

-- `cmd->argv[i]`
abbrev pub arg : List Bytes → ℕ → Bytes
arg argv i = get_or argv i []

unfoldable pub reply_wrong_arity : RespBuf → List Bytes → RespBuf
reply_wrong_arity out argv = resp_reply_error out (
    snprintf 80 (
      codes "ERR wrong number of arguments for '"
      ++ (safe_token (arg argv 0) ++ codes "' command")))
