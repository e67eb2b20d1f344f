-- ===== src/Rpc/Sound.antt =====
-- The changes of the variables of src/ct10api/ct10rpc_parse.c that keep them in order.
use xmltp.Prelude.{ℕ, ◌+◌, ◌<◌, ◌≡◌, refl, arith, length, All}
use xmltp.Bytes.{Bytes}
use xmltp.Rpc.State.{Rpc}
use xmltp.Rpc.Spec.{Quoting}
use xmltp.Rpc.Expected.{quote_number}
use xmltp.Rpc.Total.{IsSound}

-- The variables with one buffer changed, or with the next parameter's quotes.
pub rpc_name-IsSound :
    (s : Rpc) (b : Bytes) (d : ℕ)
    → length b ≡ 1024
    → IsSound s
    → IsSound (record s { p_rpc_name = b; dest_ind = d })
rpc_name-IsSound s b d e h = record {
  rpc_name_size = e;
  parm_name_size = h.parm_name_size;
  parm_val_size = h.parm_val_size;
  output_ind_size = h.output_ind_size;
  table_size = h.table_size;
  some_place = h.some_place;
  count_fits = h.count_fits;
  val_ascii = h.val_ascii;
  quoting = h.quoting;
  quote_is = h.quote_is;
}

pub parm_name-IsSound :
    (s : Rpc) (b : Bytes) (d : ℕ)
    → length b ≡ 1024
    → IsSound s
    → IsSound (record s { p_parm_name = b; dest_ind = d })
parm_name-IsSound s b d e h = record {
  rpc_name_size = h.rpc_name_size;
  parm_name_size = e;
  parm_val_size = h.parm_val_size;
  output_ind_size = h.output_ind_size;
  table_size = h.table_size;
  some_place = h.some_place;
  count_fits = h.count_fits;
  val_ascii = h.val_ascii;
  quoting = h.quoting;
  quote_is = h.quote_is;
}

pub parm_val-IsSound :
    (s : Rpc) (b : Bytes) (d : ℕ)
    → length b ≡ 1024
    → All (λ c. c < 128) b
    → IsSound s
    → IsSound (record s { p_parm_val = b; dest_ind = d })
parm_val-IsSound s b d e a h = record {
  rpc_name_size = h.rpc_name_size;
  parm_name_size = h.parm_name_size;
  parm_val_size = e;
  output_ind_size = h.output_ind_size;
  table_size = h.table_size;
  some_place = h.some_place;
  count_fits = h.count_fits;
  val_ascii = a;
  quoting = h.quoting;
  quote_is = h.quote_is;
}

pub output_ind-IsSound :
    (s : Rpc) (b : Bytes) (d o : ℕ)
    → length b ≡ 1024
    → IsSound s
    → IsSound (record s { p_output_ind = b; dest_ind = d; output_ind = o })
output_ind-IsSound s b d o e h = record {
  rpc_name_size = h.rpc_name_size;
  parm_name_size = h.parm_name_size;
  parm_val_size = h.parm_val_size;
  output_ind_size = e;
  table_size = h.table_size;
  some_place = h.some_place;
  count_fits = h.count_fits;
  val_ascii = h.val_ascii;
  quoting = h.quoting;
  quote_is = h.quote_is;
}

pub opened-IsSound :
    (s : Rpc) (q : Quoting)
    → IsSound s
    → IsSound (record s {
      current_parm = 1;
      first_parm_ind = 0;
      quote_ind = quote_number q;
      dest_ind = 0;
    })
opened-IsSound s q h = record {
  rpc_name_size = h.rpc_name_size;
  parm_name_size = h.parm_name_size;
  parm_val_size = h.parm_val_size;
  output_ind_size = h.output_ind_size;
  table_size = h.table_size;
  some_place = h.some_place;
  count_fits = h.some_place;
  val_ascii = h.val_ascii;
  quoting = q;
  quote_is = refl;
}

pub quoted-IsSound :
    (s : Rpc) (q : Quoting)
    → IsSound s
    → IsSound (record s { quote_ind = quote_number q; dest_ind = 0 })
quoted-IsSound s q h = record {
  rpc_name_size = h.rpc_name_size;
  parm_name_size = h.parm_name_size;
  parm_val_size = h.parm_val_size;
  output_ind_size = h.output_ind_size;
  table_size = h.table_size;
  some_place = h.some_place;
  count_fits = h.count_fits;
  val_ascii = h.val_ascii;
  quoting = q;
  quote_is = refl;
}

pub dest-IsSound : (s : Rpc) (d : ℕ) → IsSound s → IsSound (record s { dest_ind = d })
dest-IsSound s d h = record {
  rpc_name_size = h.rpc_name_size;
  parm_name_size = h.parm_name_size;
  parm_val_size = h.parm_val_size;
  output_ind_size = h.output_ind_size;
  table_size = h.table_size;
  some_place = h.some_place;
  count_fits = h.count_fits;
  val_ascii = h.val_ascii;
  quoting = h.quoting;
  quote_is = h.quote_is;
}

pub next-IsSound :
    (s : Rpc)
    → s.current_parm < s.parm_tbl_size
    → IsSound s
    → IsSound (record s { current_parm = s.current_parm + 1 })
next-IsSound s l h = record {
  rpc_name_size = h.rpc_name_size;
  parm_name_size = h.parm_name_size;
  parm_val_size = h.parm_val_size;
  output_ind_size = h.output_ind_size;
  table_size = h.table_size;
  some_place = h.some_place;
  count_fits = omega (arith, l);
  val_ascii = h.val_ascii;
  quoting = h.quoting;
  quote_is = h.quote_is;
}

pub first-IsSound :
    (s : Rpc)
    → IsSound s
    → IsSound (record s { current_parm = 1; first_parm_ind = 0; dest_ind = 0 })
first-IsSound s h = record {
  rpc_name_size = h.rpc_name_size;
  parm_name_size = h.parm_name_size;
  parm_val_size = h.parm_val_size;
  output_ind_size = h.output_ind_size;
  table_size = h.table_size;
  some_place = h.some_place;
  count_fits = h.some_place;
  val_ascii = h.val_ascii;
  quoting = h.quoting;
  quote_is = h.quote_is;
}
