-- ===== src/Inet/Report.antt =====
-- nsbBasicApp.cc and nsbAppSink.cc: what the applications show while they run (`refreshDisplay`)
-- and what they report at the end (`finish`): on the standard output and in a file of results.
use nsb_beta.Base.{
  length-decimal-le, ℕ, ◌^◌, ◌<◌, Bool, List, [], ◌∷◌, ◌++◌, arith, if◌then◌else◌, length,
  length-append, Bytes, codes, decimal,
}
use nsb_beta.Inet.BasicApp.{BasicApp}
use nsb_beta.Inet.AppSink.{AppSink}

-- The lines on the standard output, and the file after it.
pub record Report : Type 0 where
  pub printed : List Bytes
  pub file : Bytes

abbrev new_line : Bytes
new_line = 10 ∷ []

-- `getFullPath() << "," << packets << "," << bytes << "," << std::endl`
unfoldable pub result_row : Bytes → ℕ → ℕ → Bytes
result_row path packets bytes =
    path ++ b',' ∷ (decimal packets ++ b',' ∷ (decimal bytes ++ b',' ∷ new_line))

-- The two tests of `file`, before it was ever opened: it is good, so no header is written and the
-- row is appended, if the file can be opened.
unfoldable pub write_row : Bool → Bytes → ℕ → ℕ → Bytes → Bytes
unfolding result_row
write_row opens path packets bytes file =
    if opens then file ++ result_row path packets bytes else file

count_line : Bytes → Bytes → ℕ → Bytes → Bytes
count_line path done n what = path ++ (codes ": " ++ (done ++ (b' ' ∷ (decimal n ++ b' ' ∷ what))))

appends : Bytes
appends = codes "File exists so just append to it"

-- `nsbBasicApp::finish`; `bytesSent` is never changed from 0.
unfoldable pub finish_app : Bool → Bytes → Bytes → BasicApp → Report
unfolding count_line appends write_row
finish_app opens path file a = record {
  printed =
      count_line path (codes "sent") a.num_sent (codes "packets")
      ∷ count_line path (codes "sent") 0 (codes "bytes")
      ∷ appends
      ∷ [];
  file = write_row opens path a.num_sent 0 file;
}

-- `nsbBasicApp::refreshDisplay`
unfoldable pub display_app : BasicApp → Bytes
display_app a =
    codes "rcvd: "
    ++ (decimal a.num_received
        ++ (codes " pks" ++ (new_line ++ (codes "sent: " ++ (decimal a.num_sent ++ codes " pks")))))

-- The sizes of the two arrays of characters.
abbrev pub app_buffer : ℕ
app_buffer = 100

abbrev pub sink_buffer : ℕ
sink_buffer = 50

module _ {Addr : Type 0} where
  -- `nsbAppSink::finish`; `bytesReceived` is never changed from 0.
  unfoldable pub finish_sink : Bool → Bytes → Bytes → AppSink Addr → Report
  unfolding count_line appends write_row
  finish_sink opens path file a = record {
    printed =
        count_line path (codes "received") a.num_received (codes "packets")
        ∷ count_line path (codes "received") 0 (codes "bytes")
        ∷ appends
        ∷ [];
    file = write_row opens path a.num_received 0 file;
  }

  -- `nsbAppSink::refreshDisplay`
  unfoldable pub display_sink : AppSink Addr → Bytes
  display_sink a = codes "rcvd: " ++ (decimal a.num_received ++ codes " pks")

-- What `sprintf` writes, with the zero at its end, has room in the two arrays, if the counts are
-- those of an `int` that has not overflowed.
pub displays_fit :
    {Addr : Type 0} (a : BasicApp) (b : AppSink Addr)
    → a.num_received < 2 ^ 31
    → a.num_sent < 2 ^ 31
    → b.num_received < 2 ^ 31
    → (length (display_app a) < app_buffer) × (length (display_sink b) < sink_buffer)
unfolding display_app display_sink
displays_fit a b h k l =
    let r = length-decimal-le 9 a.num_received (omega arith) in
    let s = length-decimal-le 9 a.num_sent (omega arith) in
    let t = length-decimal-le 9 b.num_received (omega arith) in
    let sent =
      codes " pks" ++ (new_line ++ (codes "sent: " ++ (decimal a.num_sent ++ codes " pks"))) in
    (
      omega (
        arith,
        length-append (decimal a.num_received) sent,
        length-append (decimal a.num_sent) (codes " pks"),
      ),
      omega (arith, length-append (decimal b.num_received) (codes " pks")),
    )
