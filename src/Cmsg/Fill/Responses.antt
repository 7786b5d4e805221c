-- ===== src/Cmsg/Fill/Responses.antt =====
-- The `capi_fill_*_RESP` functions of linux/include/linux/isdn/capiutil.h: each fills
-- a `_cmsg` for one message.
use capi4linux.Prelude.{ℕ}
use capi4linux.Cmsg.Struct.{Cmsg, CStruct, capi_cmsg_header}
use capi4linux.Cmsg.Fields.{
  set_num, set_struct, b1_configuration, b1_protocol, b2_configuration, b2_protocol,
  b3_configuration, b3_protocol, b_channelinformation, class, connected_number,
  connected_subaddress, data_handle, facility_selector, facilitydataarray, function, keypadfacility,
  llc, manu_data, manu_id, ncpi, reject, useruserdata,
}

unfoldable pub fill_connect_resp :
    ℕ
    → ℕ
    → ℕ
    → ℕ
    → ℕ
    → ℕ
    → ℕ
    → CStruct
    → CStruct
    → CStruct
    → CStruct
    → CStruct
    → CStruct
    → CStruct
    → CStruct
    → CStruct
    → CStruct
    → Cmsg
unfolding capi_cmsg_header set_num set_struct
fill_connect_resp appl_id messagenumber adr reject' b1_protocol' b2_protocol' b3_protocol'
      b1_configuration' b2_configuration' b3_configuration' connected_number' connected_subaddress'
      llc' b_channelinformation' keypadfacility' useruserdata' facilitydataarray' =
    set_struct facilitydataarray facilitydataarray' (
      set_struct useruserdata useruserdata' (
        set_struct keypadfacility keypadfacility' (
          set_struct b_channelinformation b_channelinformation' (
            set_struct llc llc' (
              set_struct connected_subaddress connected_subaddress' (
                set_struct connected_number connected_number' (
                  set_struct b3_configuration b3_configuration' (
                    set_struct b2_configuration b2_configuration' (
                      set_struct b1_configuration b1_configuration' (
                        set_num b3_protocol b3_protocol' (
                          set_num b2_protocol b2_protocol' (
                            set_num b1_protocol b1_protocol' (
                              set_num reject reject'
                                (capi_cmsg_header appl_id 0x02 0x83 messagenumber adr))))))))))))))

unfoldable pub fill_connect_active_resp : ℕ → ℕ → ℕ → Cmsg
unfolding capi_cmsg_header set_num set_struct
fill_connect_active_resp appl_id messagenumber adr =
    capi_cmsg_header appl_id 0x03 0x83 messagenumber adr

unfoldable pub fill_connect_b3_active_resp : ℕ → ℕ → ℕ → Cmsg
unfolding capi_cmsg_header set_num set_struct
fill_connect_b3_active_resp appl_id messagenumber adr =
    capi_cmsg_header appl_id 0x83 0x83 messagenumber adr

unfoldable pub fill_connect_b3_resp : ℕ → ℕ → ℕ → ℕ → CStruct → Cmsg
unfolding capi_cmsg_header set_num set_struct
fill_connect_b3_resp appl_id messagenumber adr reject' ncpi' =
    set_struct ncpi ncpi'
      (set_num reject reject' (capi_cmsg_header appl_id 0x82 0x83 messagenumber adr))

unfoldable pub fill_connect_b3_t90_active_resp : ℕ → ℕ → ℕ → Cmsg
unfolding capi_cmsg_header set_num set_struct
fill_connect_b3_t90_active_resp appl_id messagenumber adr =
    capi_cmsg_header appl_id 0x88 0x83 messagenumber adr

unfoldable pub fill_data_b3_resp : ℕ → ℕ → ℕ → ℕ → Cmsg
unfolding capi_cmsg_header set_num set_struct
fill_data_b3_resp appl_id messagenumber adr data_handle' =
    set_num data_handle data_handle' (capi_cmsg_header appl_id 0x86 0x83 messagenumber adr)

unfoldable pub fill_disconnect_b3_resp : ℕ → ℕ → ℕ → Cmsg
unfolding capi_cmsg_header set_num set_struct
fill_disconnect_b3_resp appl_id messagenumber adr =
    capi_cmsg_header appl_id 0x84 0x83 messagenumber adr

unfoldable pub fill_disconnect_resp : ℕ → ℕ → ℕ → Cmsg
unfolding capi_cmsg_header set_num set_struct
fill_disconnect_resp appl_id messagenumber adr =
    capi_cmsg_header appl_id 0x04 0x83 messagenumber adr

unfoldable pub fill_facility_resp : ℕ → ℕ → ℕ → ℕ → Cmsg
unfolding capi_cmsg_header set_num set_struct
fill_facility_resp appl_id messagenumber adr facility_selector' =
    set_num facility_selector facility_selector'
      (capi_cmsg_header appl_id 0x80 0x83 messagenumber adr)

unfoldable pub fill_info_resp : ℕ → ℕ → ℕ → Cmsg
unfolding capi_cmsg_header set_num set_struct
fill_info_resp appl_id messagenumber adr = capi_cmsg_header appl_id 0x08 0x83 messagenumber adr

unfoldable pub fill_manufacturer_resp : ℕ → ℕ → ℕ → ℕ → ℕ → ℕ → CStruct → Cmsg
unfolding capi_cmsg_header set_num set_struct
fill_manufacturer_resp appl_id messagenumber adr manu_id' class' function' manu_data' =
    set_struct manu_data manu_data' (
      set_num function function' (
        set_num class class'
          (set_num manu_id manu_id' (capi_cmsg_header appl_id 0xff 0x83 messagenumber adr))))

unfoldable pub fill_reset_b3_resp : ℕ → ℕ → ℕ → Cmsg
unfolding capi_cmsg_header set_num set_struct
fill_reset_b3_resp appl_id messagenumber adr = capi_cmsg_header appl_id 0x87 0x83 messagenumber adr
