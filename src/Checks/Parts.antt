-- ===== src/Checks/Parts.antt =====
-- The conversions, the splitter, the fields of a line, and the queue.
use linux_sensors.Base.{
  ℕ, ◌≡◌, ◌↔◌, ◌≢◌, ◌<◌, List, [], ◌∷◌, ◌++◌, refl, arith, Bytes, codes, ok, thrown, undefined,
  take, drop, inl, inr,
}
use linux_sensors.Base.Int.{pos}
use linux_sensors.Text.Lines.{IsSplit, split_string-IsSplit}
use linux_sensors.Text.Completed.{newline}
use linux_sensors.Text.{StringRef, split_string}
use linux_sensors.Trace.{collect_line}
use linux_sensors.Trace.Fields.{Columns, record_of, collect_line-columns}
use linux_sensors.Trace.Short.{collect_line-throws, collect_line-undefined}
use linux_sensors.Number.{fast_atoi, str_to_short, to_string}
use linux_sensors.Number.RoundTrip.{fast_atoi-to_string, str_to_short_iff}
use linux_sensors.Encoding.{base64_encode, base64_decode}
use linux_sensors.Encoding.RoundTrip.{decode-encode}
use linux_sensors.Queue.{SafeQueue, wait_dequeue_bulk}
use linux_sensors.Queue.Order.{
  Call, put, put_bulk, get_bulk, run, given, run_fifo, wait_dequeue_bulk-splits,
}

abbrev four_bytes : Bytes
four_bytes = 0 ∷ 255 ∷ 10 ∷ 200 ∷ []

encode_four : base64_encode four_bytes ≡ codes "AP8KyA=="
unfolding base64_encode
encode_four = refl

decode-encode_example : base64_decode (base64_encode four_bytes) ≡ ok four_bytes
decode-encode_example =
    decode-encode four_bytes (omega arith, (omega arith, (omega arith, (omega arith, tt))))
      (omega arith)

fast_atoi-to_string_example : fast_atoi (to_string (pos 2147483647)) ≡ ok (pos 2147483647)
fast_atoi-to_string_example = fast_atoi-to_string 2147483647 (omega arith)

str_to_short_iff_example : (str_to_short (to_string (pos 40000)) ≡ pos 40000) ↔ (40000 < 32768)
str_to_short_iff_example = str_to_short_iff 40000 (omega arith)

abbrev two_lines : Bytes
two_lines = codes "ab\ncde\nfg"

split_string-IsSplit_example :
    IsSplit two_lines (codes "x") (split_string two_lines newline (codes "x"))
split_string-IsSplit_example = split_string-IsSplit two_lines (codes "x") (omega arith)

abbrev queue_of : SafeQueue ℕ
queue_of = record { items = 1 ∷ 2 ∷ 3 ∷ [] }

abbrev calls : List (Call ℕ)
calls = get_bulk 2 ∷ put 4 ∷ put_bulk (5 ∷ 6 ∷ []) ∷ get_bulk 9 ∷ get_bulk 9 ∷ put 7 ∷ []

run_fifo_example :
    (run calls queue_of).0 ++ (run calls queue_of).1.items ≡ queue_of.items ++ given calls
run_fifo_example = run_fifo calls queue_of

abbrev text : Bytes
text = codes "            bash-123   [000] ....   100.123456: sys_enter: NR 59  (1,"

abbrev line : StringRef
line = record { start = 0; size = 69; buffer = [] }

columns : Columns text line (codes "bash") (codes "123") (codes "59")
columns = record {
  pad = 12;
  first = b'b';
  others = codes "ash";
  is_name = refl;
  visible = λ e. omega (arith, e);
  name_width = refl;
  separator = b'-';
  no_space = λ e. omega (arith, e);
  after_name = drop 17 text;
  name_column = refl;
  after_pid = drop 20 text;
  pid_column = refl;
  pid_ends = inr (omega arith, (drop 21 text, refl));
  pid_digits = (omega arith, (omega arith, (omega arith, tt)));
  pid_fits = omega arith;
  after_syscall = drop 64 text;
  syscall_column = refl;
  syscall_ends = inr (omega arith, (drop 65 text, refl));
  syscall_digits = (omega arith, (omega arith, tt));
  syscall_fits = omega arith;
  long_enough = omega arith;
  inside = omega arith;
  text_fits = omega arith;
}

collect_line-columns_example :
    collect_line text line ≡ ok (record_of (codes "bash") (codes "123") (codes "59") ∷ [])
collect_line-columns_example = collect_line-columns columns

abbrev line_of_61 : StringRef
line_of_61 = record { start = 0; size = 61; buffer = [] }

collect_line-throws_example : collect_line text line_of_61 ≡ thrown
collect_line-throws_example =
    collect_line-throws text line_of_61 (inl refl) (omega arith) (omega arith)

abbrev last_line_of_61 : Bytes
last_line_of_61 = take 61 text

collect_line-undefined_example :
    collect_line
      (codes "x\n" ++ (last_line_of_61 ++ newline))
      (record { start = 2; size = 61; buffer = [] })
    ≡ undefined
collect_line-undefined_example =
    collect_line-undefined (codes "x\n") last_line_of_61 [] (omega arith) (omega arith)

wait_dequeue_bulk-splits_example :
    (1 ∷ 2 ∷ [] ≡ take 2 queue_of.items) × (3 ∷ [] ≡ drop 2 queue_of.items) × (queue_of.items ≢ [])
unfolding wait_dequeue_bulk
wait_dequeue_bulk-splits_example =
    wait_dequeue_bulk-splits 2 queue_of (1 ∷ 2 ∷ []) (record { items = 3 ∷ [] }) refl
