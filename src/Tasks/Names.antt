-- ===== src/Tasks/Names.antt =====
-- createName of pkg/tasks/tools.go and RandomKubeCompatibleText of pkg/util/random.go. The names are
-- ASCII, as Kubernetes asks of them, so that a byte is a character.
use Prim.Native.String
use k8ssandra_client.Common.{
  ℕ, zero, suc, String, Result, ok, panic, concat, [], ◌∷◌, decimal, take_text, ltb, if◌then◌else◌,
}
use k8ssandra_client.Common.Exec.{Exec, pure, lift, ◌>>=◌}

abbrev pub text_length : String → ℕ
text_length String.[] = 0
text_length (String.◌∷◌ c s) = suc (text_length s)

-- s[i], which panics out of range
unfoldable pub char_at : ℕ → String → Result String
char_at i String.[] = panic
char_at zero (String.◌∷◌ c s) = ok (String.◌∷◌ c "")
char_at (suc i) (String.◌∷◌ c s) = char_at i s

abbrev pub charset : String
charset = "abcdefghijklmnopqrstuvwxyz0123456789"

unfoldable pub static_part : String → String → String
static_part first second =
    let whole = concat (first ∷ "-" ∷ second ∷ []) in
    if ltb 45 (text_length whole) then take_text 45 whole else whole

-- `intn` is rand.Intn, and `now` is time.Now().UTC().Unix().
module _ {W : Type 0} (intn : ℕ → Exec W ℕ) where
  unfoldable pub random_kube_compatible_text : ℕ → Exec W String
  random_kube_compatible_text zero = pure ""
  random_kube_compatible_text (suc n) = do
    i ← intn 35
    c ← lift (char_at i charset)
    rest ← random_kube_compatible_text n
    pure (String.◌++◌ c rest)

  unfoldable pub create_name : Exec W ℕ → String → String → Exec W String
  create_name now first second = do
    seconds ← now
    random ← random_kube_compatible_text 8
    pure (String.◌++◌ (static_part first second) (String.◌++◌ (decimal seconds) random))
