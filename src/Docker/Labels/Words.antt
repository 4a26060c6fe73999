-- ===== src/Docker/Labels/Words.antt =====
-- Words of digits and small letters are segments of a name.
use npmplus_docker_sync.Base.{
  ℕ, ◌==◌, Bool, true, false, ◌&&◌, ◌||◌, ◌≡◌, arith, All, All-map, is_empty, leb,
}
use npmplus_docker_sync.Base.Number.{is_digit}
use npmplus_docker_sync.Base.Text.{Text, is_space}
use npmplus_docker_sync.Base.Text.Laws.{trim_space_of_word}
use npmplus_docker_sync.Fields.Names.Laws.{IsSegment, IsFolded}

-- A byte of a word: a digit or a small letter.
unfoldable pub plain_byte : ℕ → Bool
unfolding is_digit
plain_byte c = is_digit c || leb b'a' c && leb c b'z'

plain-IsFolded : (c : ℕ) → plain_byte c ≡ true → IsFolded c
unfolding plain_byte is_digit
plain-IsFolded c h = ground arith

plain-NotDot : (c : ℕ) → plain_byte c ≡ true → (c == b'.') ≡ false
unfolding plain_byte is_digit
plain-NotDot c h = ground arith

plain-no_space : (c : ℕ) → plain_byte c ≡ true → is_space c ≡ false
unfolding plain_byte is_digit is_space
plain-no_space c h = ground arith

pub word-IsSegment :
    (w : Text) → All (λ c. plain_byte c ≡ true) w → is_empty w ≡ false → IsSegment w
word-IsSegment w h e = (
  All-map _ plain-IsFolded w h,
  All-map _ plain-NotDot w h,
  e,
  trim_space_of_word w (All-map _ plain-no_space w h),
)
