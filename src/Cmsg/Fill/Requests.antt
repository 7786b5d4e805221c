-- ===== src/Cmsg/Fill/Requests.antt =====
-- The `capi_fill_*_REQ` functions of linux/include/linux/isdn/capiutil.h: each fills
-- a `_cmsg` for one message.
use capi4linux.Prelude.{ℕ}
use capi4linux.Cmsg.Struct.{Cmsg, CStruct, capi_cmsg_header}
use capi4linux.Cmsg.Fields.{
  set_num, set_struct, b1_configuration, b1_protocol, b2_configuration, b2_protocol,
  b3_configuration, b3_protocol, b_channelinformation, bc, called_party_number,
  called_party_subaddress, calling_party_number, calling_party_subaddress, cip_mask, cip_mask2,
  cip_value, class, data32, data_handle, data_length, facility_request_parameter, facility_selector,
  facilitydataarray, flags, function, hlc, info_mask, keypadfacility, llc, manu_data, manu_id, ncpi,
  useruserdata,
}

unfoldable pub fill_connect_b3_req : ℕ → ℕ → ℕ → CStruct → Cmsg
unfolding capi_cmsg_header set_num set_struct
fill_connect_b3_req appl_id messagenumber adr ncpi' =
    set_struct ncpi ncpi' (capi_cmsg_header appl_id 0x82 0x80 messagenumber adr)

unfoldable pub fill_facility_req : ℕ → ℕ → ℕ → ℕ → CStruct → Cmsg
unfolding capi_cmsg_header set_num set_struct
fill_facility_req appl_id messagenumber adr facility_selector' facility_request_parameter' =
    set_struct facility_request_parameter facility_request_parameter' (
      set_num facility_selector facility_selector'
        (capi_cmsg_header appl_id 0x80 0x80 messagenumber adr))

unfoldable pub fill_info_req : ℕ → ℕ → ℕ → CStruct → CStruct → CStruct → CStruct → CStruct → Cmsg
unfolding capi_cmsg_header set_num set_struct
fill_info_req appl_id messagenumber adr called_party_number' b_channelinformation' keypadfacility'
      useruserdata' facilitydataarray' =
    set_struct facilitydataarray facilitydataarray' (
      set_struct useruserdata useruserdata' (
        set_struct keypadfacility keypadfacility' (
          set_struct b_channelinformation b_channelinformation' (
            set_struct called_party_number called_party_number'
              (capi_cmsg_header appl_id 0x08 0x80 messagenumber adr)))))

unfoldable pub fill_listen_req : ℕ → ℕ → ℕ → ℕ → ℕ → ℕ → CStruct → CStruct → Cmsg
unfolding capi_cmsg_header set_num set_struct
fill_listen_req appl_id messagenumber adr info_mask' cip_mask' cip_mask2' calling_party_number'
      calling_party_subaddress' =
    set_struct calling_party_subaddress calling_party_subaddress' (
      set_struct calling_party_number calling_party_number' (
        set_num cip_mask2 cip_mask2' (
          set_num cip_mask cip_mask'
            (set_num info_mask info_mask' (capi_cmsg_header appl_id 0x05 0x80 messagenumber adr)))))

unfoldable pub fill_alert_req : ℕ → ℕ → ℕ → CStruct → CStruct → CStruct → CStruct → Cmsg
unfolding capi_cmsg_header set_num set_struct
fill_alert_req appl_id messagenumber adr b_channelinformation' keypadfacility' useruserdata'
      facilitydataarray' =
    set_struct facilitydataarray facilitydataarray' (
      set_struct useruserdata useruserdata' (
        set_struct keypadfacility keypadfacility' (
          set_struct b_channelinformation b_channelinformation'
            (capi_cmsg_header appl_id 0x01 0x80 messagenumber adr))))

unfoldable pub fill_connect_req :
    ℕ
    → ℕ
    → ℕ
    → ℕ
    → CStruct
    → CStruct
    → CStruct
    → CStruct
    → ℕ
    → ℕ
    → ℕ
    → CStruct
    → CStruct
    → CStruct
    → CStruct
    → CStruct
    → CStruct
    → CStruct
    → CStruct
    → CStruct
    → CStruct
    → Cmsg
unfolding capi_cmsg_header set_num set_struct
fill_connect_req appl_id messagenumber adr cip_value' called_party_number' calling_party_number'
      called_party_subaddress' calling_party_subaddress' b1_protocol' b2_protocol' b3_protocol'
      b1_configuration' b2_configuration' b3_configuration' bc' llc' hlc' b_channelinformation'
      keypadfacility' useruserdata' facilitydataarray' =
    set_struct facilitydataarray facilitydataarray' (
      set_struct useruserdata useruserdata' (
        set_struct keypadfacility keypadfacility' (
          set_struct b_channelinformation b_channelinformation' (
            set_struct hlc hlc' (
              set_struct llc llc' (
                set_struct bc bc' (
                  set_struct b3_configuration b3_configuration' (
                    set_struct b2_configuration b2_configuration' (
                      set_struct b1_configuration b1_configuration' (
                        set_num b3_protocol b3_protocol' (
                          set_num b2_protocol b2_protocol' (
                            set_num b1_protocol b1_protocol' (
                              set_struct calling_party_subaddress calling_party_subaddress' (
                                set_struct called_party_subaddress called_party_subaddress' (
                                  set_struct calling_party_number calling_party_number' (
                                    set_struct called_party_number called_party_number' (
                                      set_num cip_value cip_value' (
                                        capi_cmsg_header appl_id 0x02 0x80 messagenumber
                                          adr))))))))))))))))))

unfoldable pub fill_data_b3_req : ℕ → ℕ → ℕ → ℕ → ℕ → ℕ → ℕ → Cmsg
unfolding capi_cmsg_header set_num set_struct
fill_data_b3_req appl_id messagenumber adr data32' data_length' data_handle' flags' =
    set_num flags flags' (
      set_num data_handle data_handle' (
        set_num data_length data_length'
          (set_num data32 data32' (capi_cmsg_header appl_id 0x86 0x80 messagenumber adr))))

unfoldable pub fill_disconnect_req : ℕ → ℕ → ℕ → CStruct → CStruct → CStruct → CStruct → Cmsg
unfolding capi_cmsg_header set_num set_struct
fill_disconnect_req appl_id messagenumber adr b_channelinformation' keypadfacility' useruserdata'
      facilitydataarray' =
    set_struct facilitydataarray facilitydataarray' (
      set_struct useruserdata useruserdata' (
        set_struct keypadfacility keypadfacility' (
          set_struct b_channelinformation b_channelinformation'
            (capi_cmsg_header appl_id 0x04 0x80 messagenumber adr))))

unfoldable pub fill_disconnect_b3_req : ℕ → ℕ → ℕ → CStruct → Cmsg
unfolding capi_cmsg_header set_num set_struct
fill_disconnect_b3_req appl_id messagenumber adr ncpi' =
    set_struct ncpi ncpi' (capi_cmsg_header appl_id 0x84 0x80 messagenumber adr)

unfoldable pub fill_manufacturer_req : ℕ → ℕ → ℕ → ℕ → ℕ → ℕ → CStruct → Cmsg
unfolding capi_cmsg_header set_num set_struct
fill_manufacturer_req appl_id messagenumber adr manu_id' class' function' manu_data' =
    set_struct manu_data manu_data' (
      set_num function function' (
        set_num class class'
          (set_num manu_id manu_id' (capi_cmsg_header appl_id 0xff 0x80 messagenumber adr))))

unfoldable pub fill_reset_b3_req : ℕ → ℕ → ℕ → CStruct → Cmsg
unfolding capi_cmsg_header set_num set_struct
fill_reset_b3_req appl_id messagenumber adr ncpi' =
    set_struct ncpi ncpi' (capi_cmsg_header appl_id 0x87 0x80 messagenumber adr)

unfoldable pub fill_select_b_protocol_req :
    ℕ → ℕ → ℕ → ℕ → ℕ → ℕ → CStruct → CStruct → CStruct → Cmsg
unfolding capi_cmsg_header set_num set_struct
fill_select_b_protocol_req appl_id messagenumber adr b1_protocol' b2_protocol' b3_protocol'
      b1_configuration' b2_configuration' b3_configuration' =
    set_struct b3_configuration b3_configuration' (
      set_struct b2_configuration b2_configuration' (
        set_struct b1_configuration b1_configuration' (
          set_num b3_protocol b3_protocol' (
            set_num b2_protocol b2_protocol' (
              set_num b1_protocol b1_protocol'
                (capi_cmsg_header appl_id 0x41 0x80 messagenumber adr))))))
