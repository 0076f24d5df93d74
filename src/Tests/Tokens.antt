-- ===== src/Tests/Tokens.antt =====
-- A join token (internal/pki/token.go), as text and in its file.
use Prim.Native.String.{◌++◌}
use mathlib.Core.Bool.{false≢true}
use mathlib.Core.Option.{some-injective}
use text.Mathlib.TextLemmas.{nil-append}
use k3_control_plane.Base.{
  String, Bool, true, false, ◌==◌, eq_iff, ◌≡◌, ◌≢◌, refl, ap, ◌∙◌, Option, none, some, inl, inr,
  Bool-cases, if◌then◌else◌,
}
use k3_control_plane.Pki.Files.{Files, Read, contents, absent, unreadable, owner_only, write_file}
use k3_control_plane.Pki.Files.Atomic.{IsDisk, IsWritten, write_file-IsWritten}
use k3_control_plane.Base.Attempt.{attempt}
use k3_control_plane.Pki.Token.{
  Token, show_token, parse_token, parsed, byte_length, utf8_len, all_hex, is_hex_digit, trim_right,
  is_space,
}
use k3_control_plane.Pki.Token.Roundtrip.{parse_token-show_token}
use k3_control_plane.Pki.Stored.{TokenSource, choose_secret, create_token, load_or_create_token}
use k3_control_plane.Pki.Stored.Restart.{load_or_create_token_again}

abbrev pub token : Token
token = record {
  ca_hash = "0123456789abcdef0123456789abcdef0123456789abcdef0123456789abcdef";
  secret = "server:1";
}

pub all_digits : all_hex token.ca_hash ≡ true
unfolding all_hex is_hex_digit
all_digits = refl

pub digits : byte_length token.ca_hash ≡ 64
unfolding byte_length utf8_len
digits = refl

pub tight : trim_right token.secret ≡ token.secret
unfolding trim_right is_space
tight = refl

pub some_secret : token.secret ≢ ""
some_secret = λ e. false≢true ((eq_iff token.secret "").1 e)

parse_token-show_token_example : parse_token (show_token token) ≡ parsed token
parse_token-show_token_example = parse_token-show_token token all_digits digits some_secret tight

abbrev pub Disk : Type 0
Disk = String → Option String

abbrev pub set : String → Option String → Disk → Disk
set q v f = λ p. if p == q then v else f p

abbrev pub read : Option String → Read
read none = absent
read (some bytes) = contents bytes

abbrev pub append : String → String → Disk → Option String → Disk × Bool
append q bytes f none = (f, false)
append q bytes f (some old) = (set q (some (old ++ bytes)) f, true)

abbrev pub move : String → String → Disk → Option String → Disk × Bool
move old new f none = (f, false)
move old new f (some bytes) = (set new (some bytes) (set old none f), true)

abbrev pub disk : Files Disk
disk = record {
  read_file = λ p f. read (f p);
  open_empty = λ q perm f. (set q (some "") f, true);
  write = λ q bytes f. append q bytes f (f q);
  sync = λ q f. (f, true);
  close = λ q f. (f, true);
  rename = λ old new f. move old new f (f old);
}

pub set_same : (q : String) (v : Option String) (f : Disk) → set q v f q ≡ v
set_same q v f = rw ((eq_iff q q).1 refl) refl

pub set_other : (q p : String) (v : Option String) (f : Disk) → p ≢ q → set q v f p ≡ f p
set_other q p v f apart = elim (Bool-cases (p == q)) [
  | inl e ↦ absurd (apart ((eq_iff p q).0 e))
  | inr e ↦ rw e refl
]

pub some_of-read : (o : Option String) (bytes : String) → read o ≡ contents bytes → o ≡ some bytes
some_of-read none bytes e = cc
some_of-read (some b) bytes e = cc

pub none_of-read : (o : Option String) → read o ≡ absent → o ≡ none
none_of-read none e = refl
none_of-read (some b) e = cc

pub appended :
    (q bytes : String) (f : Disk) (o : Option String)
    → o ≡ some ""
    → (append q bytes f o).0 q ≡ some bytes
appended q bytes f none e = cc
appended q bytes f (some old) e =
    set_same q (some (old ++ bytes)) f
    ∙ (ap (λ s. some (s ++ bytes)) (some-injective old "" e) ∙ ap some (nil-append bytes))

pub append_apart :
    (q bytes p : String) (f : Disk) (o : Option String) → p ≢ q → (append q bytes f o).0 p ≡ f p
append_apart q bytes p f none apart = refl
append_apart q bytes p f (some old) apart = set_other q p (some (old ++ bytes)) f apart

pub moved :
    (old new : String) (f : Disk) (o : Option String)
    → (move old new f o).1 ≡ true
    → (move old new f o).0 new ≡ o
moved old new f none ok = cc
moved old new f (some bytes) ok = set_same new (some bytes) (set old none f)

pub not_moved :
    (old new : String) (f : Disk) (o : Option String)
    → (move old new f o).1 ≡ false
    → (p : String) → (move old new f o).0 p ≡ f p
not_moved old new f none failed p = refl
not_moved old new f (some bytes) failed p = cc

pub move_apart :
    (old new : String) (f : Disk) (o : Option String) (p : String)
    → p ≢ old
    → p ≢ new
    → (move old new f o).0 p ≡ f p
move_apart old new f none p h k = refl
move_apart old new f (some bytes) p h k =
    set_other new p (some bytes) (set old none f) k ∙ set_other old p none f h

abbrev pub disk_law : IsDisk disk
disk_law = record {
  content = λ f p. f p;
  read_contents = λ p f {bytes} e. some_of-read (f p) bytes e;
  read_absent = λ p f e. none_of-read (f p) e;
  open_ok = λ q perm f ok. set_same q (some "") f;
  open_others = λ q perm f p apart. set_other q p (some "") f apart;
  write_ok = λ q bytes f e ok. appended q bytes f (f q) e;
  write_others = λ q bytes f p apart. append_apart q bytes p f (f q) apart;
  sync_keeps = λ q f p. refl;
  close_keeps = λ q f p. refl;
  rename_ok = λ old new f ok. moved old new f (f old) ok;
  rename_failed = λ old new f failed p. not_moved old new f (f old) failed p;
  rename_others = λ old new f p h k. move_apart old new f (f old) p h k;
}

abbrev pub empty_disk : Disk
empty_disk = λ p. none

token_apart : ◌≢◌ {A = String} "token" "token.tmp"
token_apart e = false≢true ((eq_iff "token" "token.tmp").1 e)

write_file-IsWritten_example :
    IsWritten disk disk_law "token" "K8" owner_only empty_disk "token"
      (write_file disk "token" "K8" owner_only empty_disk)
write_file-IsWritten_example =
    write_file-IsWritten disk disk_law "token" "K8" owner_only empty_disk "token" token_apart

-- The authority's fingerprint is the hash of the token, and the random secret is the token's.
abbrev source : TokenSource Disk
source = record {
  files = disk;
  fingerprint = λ pem. token.ca_hash;
  random_secret = some token.secret;
}

first_start : (load_or_create_token source "token" "ca" "" empty_disk).1 ≡ some token
unfolding load_or_create_token create_token choose_secret write_file attempt
first_start = refl

can_read :
    disk.read_file "token" (load_or_create_token source "token" "ca" "" empty_disk).0 ≢ unreadable
unfolding load_or_create_token create_token choose_secret write_file attempt
can_read e = cc

load_or_create_token_again_example :
    (load_or_create_token source "token" "ca" ""
      (load_or_create_token source "token" "ca" "" empty_disk).0).1
    ≡ some token
load_or_create_token_again_example =
    load_or_create_token_again source disk_law "token" "ca" "" "" empty_disk token first_start
      all_digits digits some_secret tight can_read (inl refl)
